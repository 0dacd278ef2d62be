-- ===== src/Logs/Slots.antt =====
-- Every slot of a capture has a buffer (src/logcapture.rs, LogCapture::new).
use tach_core.Base.{
  ℕ, zero, suc, ◌+◌, ◌<◌, ◌≡◌, Bool, ◌==◌, ==_iff, Option, some, [], Assoc, get, insert, get-insert,
  Bool-cases, Option-cases, inl, inr, nat_eq, arith,
}
use tach_core.Logs.Capture.{LogCapture, get_fd, create_slots, new}

abbrev HasBuffers : Assoc ℕ ℕ → ℕ → Type 0
HasBuffers fds n = (k : ℕ) → k < n → (fd : ℕ) × (get fds k ≡ some fd)

insert-HasBuffers :
    (fds : Assoc ℕ ℕ) (n fd : ℕ) → HasBuffers fds n → HasBuffers (insert fds n fd) (suc n)
insert-HasBuffers fds n fd h k below = elim (Bool-cases (n == k)) [
  | inl e ↦ (fd, ground (arith, e, get-insert fds n k fd))
  | inr e ↦
      let (g, at) = h k (ground (arith, e, ==_iff n k)) in
      (g, ground (arith, e, at, get-insert fds n k fd))
]

create_slots-HasBuffers :
    (create : ℕ → Option ℕ) (resize : ℕ → Bool) (n slot : ℕ) (fds made : Assoc ℕ ℕ)
    → create_slots create resize n slot fds ≡ some made
    → HasBuffers fds slot
    → HasBuffers made (slot + n)
unfolding create_slots
create_slots-HasBuffers create resize zero slot fds made e h k below =
    let same : fds ≡ made = cc in rw (← same) (h k (omega arith))
create_slots-HasBuffers create resize (suc n) slot fds made e h k below =
    elim (Option-cases (create slot)) [
      | inl f ↦ absurd (ground (arith, e, f))
      | inr (fd, f) ↦ elim (Bool-cases (resize fd)) [
        | inr g ↦ absurd (ground (arith, e, f, g))
        | inl g ↦
            let rest : create_slots create resize n (suc slot) (insert fds slot fd) ≡ some made =
              ground (arith, e, f, g) in
            create_slots-HasBuffers create resize n (suc slot) (insert fds slot fd) made rest
              (insert-HasBuffers fds slot fd h) k (omega arith)
      ]
    ]

-- The slots of a new capture are the numbers below the given one.
pub new-get_fd :
    (create : ℕ → Option ℕ) (resize : ℕ → Bool) (n slot : ℕ) (c : LogCapture)
    → new create resize n ≡ some c
    → slot < n
    → (fd : ℕ) × (get_fd c slot ≡ some fd)
unfolding new get_fd
new-get_fd create resize n slot c e below =
    elim (Option-cases (create_slots create resize n 0 [])) [
      | inl f ↦ absurd (ground (arith, e, f))
      | inr (fds, f) ↦
          let same : fds ≡ c.fds = ground (arith, e, f) in
          rw (← same) (
            create_slots-HasBuffers create resize n 0 [] fds f (λ k low. absurd (omega arith)) slot
              (omega arith))
    ]
