-- ===== src/Debugger/Restored.antt =====
-- What a session leaves behind (src/debugger.rs, handle_session).
use mathlib.Core.Path.{subst}
use tach_core.Base.{
  ℕ, zero, suc, ◌≡◌, ◌⊎◌, inl, inr, refl, ◌∙◌, ap, Bool, true, false, not, ◌&&◌, Option, some, List,
  [], ◌∷◌, ◌++◌, any, if◌then◌else◌, Bool-cases, Option-cases, nat_beq_iff, arith,
}
use tach_core.Lifecycle.Guard.{ℤ, pos, negsuc, int_beq}
use tach_core.Debugger.Terminal.{
  TerminalMode, cooked, raw, Signal, sigstop, sigcont, World, Managed, new, enter_raw_mode, restore,
  dropped,
}
use tach_core.Debugger.Hook.{Safe, enter_raw_mode-Safe, restore-Safe, dropped-Safe, new-Safe}
use tach_core.Debugger.Pipe.{Turn, begun, turns, ended}
use tach_core.Debugger.Session.{
  is_positive, is_debugged, pause_workers, resume_workers, Calls, Outcome, blocked, ended_with,
  marked, resumed, finished, finish, tunnel, in_raw, handle_session,
}

abbrev stops : Signal → Bool
stops sigstop = true
stops sigcont = false

-- Whether a process is stopped behind some signals, by whether it was before.
unfoldable pub stopped : List (ℤ × Signal) → ℤ → Bool → Bool
stopped [] pid before = before
stopped ((p, signal) ∷ signals) pid before =
    stopped signals pid (if int_beq p pid then stops signal else before)

stopped-append :
    (xs ys : List (ℤ × Signal)) (pid : ℤ) (before : Bool)
    → stopped (xs ++ ys) pid before ≡ stopped ys pid (stopped xs pid before)
unfolding stopped
stopped-append [] ys pid before = refl
stopped-append ((p, signal) ∷ xs) ys pid before =
    stopped-append xs ys pid (if int_beq p pid then stops signal else before)

-- A process of a positive id among some.
abbrev pub among : ℕ → List ℤ → Bool
among n pids = any (λ p. int_beq p (pos (suc n))) pids

-- A process whose id is not positive is none of a positive id.
not_positive : (p : ℤ) (n : ℕ) → is_positive p ≡ false → int_beq p (pos (suc n)) ≡ false
unfolding is_positive int_beq
not_positive (pos zero) n h = ground (arith, nat_beq_iff 0 (suc n))
not_positive (pos (suc m)) n h = absurd (cc)
not_positive (negsuc m) n h = refl

stopped-resume_workers :
    (pids : List ℤ) (n : ℕ) (before : Bool)
    → stopped (resume_workers pids) (pos (suc n)) before ≡ (if among n pids then false else before)
unfolding stopped resume_workers any
stopped-resume_workers [] n before = refl
stopped-resume_workers (p ∷ pids) n before = elim (Bool-cases (is_positive p)) [
  | inr e ↦ ground (arith, e, not_positive p n e, stopped-resume_workers pids n before)
  | inl e ↦ elim (Bool-cases (int_beq p (pos (suc n)))) [
    | inl f ↦ ground (arith, e, f, stopped-resume_workers pids n false)
    | inr f ↦ ground (arith, e, f, stopped-resume_workers pids n before)
  ]
]

-- The debugged process, and others of its id, are not stopped.
abbrev pub spared : ℕ → Option ℤ → Bool
spared n debugged = is_debugged debugged (pos (suc n))

int_beq-eq : (p : ℤ) (n : ℕ) → int_beq p (pos (suc n)) ≡ true → p ≡ pos (suc n)
unfolding int_beq
int_beq-eq (pos m) n h = ap pos ((nat_beq_iff m (suc n)).0 h)
int_beq-eq (negsuc m) n h = absurd (cc)

stopped-pause_workers :
    (pids : List ℤ) (debugged : Option ℤ) (n : ℕ) (before : Bool)
    → stopped (pause_workers pids debugged) (pos (suc n)) before
      ≡ (if among n pids && not (spared n debugged) then true else before)
unfolding stopped pause_workers any
stopped-pause_workers [] debugged n before = refl
stopped-pause_workers (p ∷ pids) debugged n before = elim (Bool-cases (int_beq p (pos (suc n)))) [
  | inl f ↦
      let same : is_debugged debugged p ≡ spared n debugged =
        ap (is_debugged debugged) (int_beq-eq p n f) in
      let up : is_positive p ≡ true = elim (Bool-cases (is_positive p)) [
        | inl e ↦ e
        | inr e ↦ absurd (ground (arith, f, not_positive p n e))
      ] in
      ground (
        arith,
        f,
        same,
        up,
        stopped-pause_workers pids debugged n before,
        stopped-pause_workers pids debugged n true,
      )
  | inr f ↦ ground (arith, f, stopped-pause_workers pids debugged n before)
]

mode_cases : (mode : TerminalMode) → (mode ≡ cooked) ⊎ (mode ≡ raw)
mode_cases cooked = inl refl
mode_cases raw = inr refl

module _ {Termios : Type 0} where
  -- Switching the terminal leaves the rest.
  entered :
      (cfmakeraw : Termios → Termios) (ok b : Bool) (l : List (ℤ × Signal)) (s : Managed Termios)
      → (s.1.is_debugging ≡ b) × (s.1.signals ≡ l)
      → ((enter_raw_mode cfmakeraw ok s).1.1.is_debugging ≡ b)
        × ((enter_raw_mode cfmakeraw ok s).1.1.signals ≡ l)
  unfolding enter_raw_mode
  entered cfmakeraw ok b l (m, w) h = elim (mode_cases m.current_mode) [
    | inr e ↦ rw (e, enter_raw_mode) h
    | inl e ↦ elim (Option-cases m.saved) [
      | inl f ↦ rw (e, f, enter_raw_mode) h
      | inr (x, f) ↦ elim (Bool-cases ok) [
        | inl g ↦ rw (e, f, g, enter_raw_mode) h
        | inr g ↦ rw (e, f, g, enter_raw_mode) h
      ]
    ]
  ]

  restored :
      (ok b : Bool) (l : List (ℤ × Signal)) (s : Managed Termios)
      → (s.1.is_debugging ≡ b) × (s.1.signals ≡ l)
      → ((restore ok s).1.1.is_debugging ≡ b) × ((restore ok s).1.1.signals ≡ l)
  unfolding restore
  restored ok b l (m, w) h = elim (mode_cases m.current_mode) [
    | inl e ↦ rw (e, restore) h
    | inr e ↦ elim (Option-cases m.saved) [
      | inl f ↦ rw (e, f, restore) h
      | inr (x, f) ↦ elim (Bool-cases ok) [
        | inl g ↦ rw (e, f, g, restore) h
        | inr g ↦ rw (e, f, g, restore) h
      ]
    ]
  ]

module _ {Termios : Type 0} (t : Termios) where
  -- The terminal's state is safe, and the rest of the world is that.
  abbrev Holds : Bool → List (ℤ × Signal) → Managed Termios → Type 0
  Holds debugging signals s = Safe t s × (s.1.is_debugging ≡ debugging) × (s.1.signals ≡ signals)

  abbrev pub Leaves : Bool → List (ℤ × Signal) → World Termios → Type 0
  Leaves debugging signals w =
      (w.terminal ≡ t)
      × (w.in_raw_mode ≡ false)
      × (w.is_debugging ≡ debugging)
      × (w.signals ≡ signals)

  enter_raw_mode-Holds :
      (cfmakeraw : Termios → Termios) (ok b : Bool) (l : List (ℤ × Signal)) (s : Managed Termios)
      → Holds b l s
      → Holds b l (enter_raw_mode cfmakeraw ok s).1
  enter_raw_mode-Holds cfmakeraw ok b l (m, w) (safe, d, e) = (
    enter_raw_mode-Safe cfmakeraw t ok (m, w) safe,
    (entered cfmakeraw ok b l (m, w) (d, e)).0,
    (entered cfmakeraw ok b l (m, w) (d, e)).1,
  )

  restore-Holds :
      (ok b : Bool) (l : List (ℤ × Signal)) (s : Managed Termios)
      → Holds b l s
      → Holds b l (restore ok s).1
  restore-Holds ok b l s (safe, d, e) =
      let (p, q) = restored ok b l s (d, e) in (restore-Safe (λ x. x) t ok s safe, p, q)

  dropped-Leaves :
      (b : Bool) (l : List (ℤ × Signal)) (s : Managed Termios)
      → Holds b l s
      → Leaves b l (dropped true s)
  unfolding dropped
  dropped-Leaves b l s (safe, d, e) =
      let (x, y) = dropped-Safe (λ x. x) t s safe in
      let (p, q) = restored true b l s (d, e) in (x, y, p, q)

  -- What a session that has ended leaves, by whether it has ended without an error.
  abbrev pub Ended : List (ℤ × Signal) → List ℤ → Outcome Termios → Type 0
  Ended l pids (blocked p) = Unit {0}
  Ended l pids (ended_with true v) = Leaves false (l ++ resume_workers pids) v
  Ended l pids (ended_with false v) = Leaves true l v

  finished-Ended :
      (c : Calls) (done : Bool) (pids : List ℤ) (l : List (ℤ × Signal)) (s : Managed Termios)
      → c.drop_restores ≡ true
      → Holds true l s
      → Ended l pids (finished c pids done s)
  unfolding finished resumed
  finished-Ended c false pids l s on h = rw on (dropped-Leaves true l s h)
  finished-Ended c true pids l (m, w) on (safe, d, e) = rw on (
      dropped-Leaves false (l ++ resume_workers pids) (m, resumed w pids)
        (safe, refl, ap (λ k. k ++ resume_workers pids) e))

  tunnel-Ended :
      (c : Calls) (ts : List Turn) (pids : List ℤ) (l : List (ℤ × Signal)) (s : Managed Termios)
      → c.drop_restores ≡ true
      → Holds true l s
      → Ended l pids (tunnel c ts pids s)
  unfolding tunnel finish
  tunnel-Ended c ts pids l s on h = elim (Bool-cases (c.set_nonblocking && c.try_clone)) [
    | inr e ↦ rw (e, tunnel, on) (dropped-Leaves true l s h)
    | inl e ↦ elim (Bool-cases (ended (turns ts begun))) [
      | inr f ↦ rw (e, f, tunnel) tt
      | inl f ↦
          let (done, u) = restore c.restores s in
          rw (e, f, tunnel)
            (finished-Ended c (restore c.restores s).0 pids l (restore c.restores s).1 on
              (restore-Holds c.restores true l s h))
    ]
  ]

  in_raw-Ended :
      (c : Calls) (ts : List Turn) (pids : List ℤ) (l : List (ℤ × Signal)) (ok : Bool)
      (s : Managed Termios)
      → c.drop_restores ≡ true
      → Holds true l s
      → Ended l pids (in_raw c ts pids (ok, s))
  unfolding in_raw
  in_raw-Ended c ts pids l false s on h = rw on (dropped-Leaves true l s h)
  in_raw-Ended c ts pids l true s on h = tunnel-Ended c ts pids l s on h

new-Holds :
    {Termios : Type 0} (w : World Termios) (s : Managed Termios) (b : Bool) (l : List (ℤ × Signal))
    → w.in_raw_mode ≡ false
    → w.is_debugging ≡ b
    → w.signals ≡ l
    → new true w ≡ some s
    → Holds w.terminal b l s
unfolding new
new-Holds {Termios} w s b l f d e made =
    let start : Managed Termios = (
      record { saved = some w.terminal; current_mode = cooked },
      record w { original_termios = some w.terminal },
    ) in
    let q : start ≡ s = cc in subst (λ u. Holds w.terminal b l u) q (new-Safe w start f refl, d, e)

got :
    {Termios : Type 0} (ok : Bool) (w : World Termios) (s : Managed Termios)
    → new ok w ≡ some s
    → new true w ≡ some s
unfolding new
got true w s e = e
got false w s e = absurd (cc)

handle_session-Ended :
    {Termios : Type 0} (cfmakeraw : Termios → Termios) (c : Calls) (ts : List Turn)
    (w : World Termios) (pids : List ℤ) (debugged : Option ℤ)
    → w.in_raw_mode ≡ false
    → c.drop_restores ≡ true
    → Ended w.terminal
        (w.signals ++ pause_workers pids debugged)
        pids
        (handle_session cfmakeraw c ts w pids debugged)
unfolding handle_session marked
handle_session-Ended {Termios} cfmakeraw c ts w pids debugged f on =
    let start = marked w pids debugged in
    elim (Option-cases (new c.tcgetattr start)) [
      | inl e ↦ rw (e, handle_session) (refl, f, refl, refl)
      | inr (s, e) ↦
          let made : new true start ≡ some s = got c.tcgetattr start s e in
          let l = w.signals ++ pause_workers pids debugged in
          let held = new-Holds start s true l f refl refl made in
          let entered = enter_raw_mode cfmakeraw c.set_raw s in
          rw (e, handle_session)
            (in_raw-Ended w.terminal c ts pids l entered.0 entered.1 on
              (enter_raw_mode-Holds w.terminal cfmakeraw c.set_raw true l s held))
    ]

Ended-end :
    {Termios : Type 0} (t : Termios) (l : List (ℤ × Signal)) (pids : List ℤ) (ok : Bool)
    (v : World Termios) (n : ℕ) (before : Bool)
    → Ended t l pids (ended_with ok v)
    → (v.terminal ≡ t)
      × (v.in_raw_mode ≡ false)
      × (v.is_debugging ≡ not ok)
      × (stopped v.signals (pos (suc n)) before
          ≡ (if ok && among n pids then false else stopped l (pos (suc n)) before))
Ended-end t l pids true v n before (a, b, d, e) = (
  a,
  b,
  d,
  ap (λ k. stopped k (pos (suc n)) before) e
      ∙ stopped-append l (resume_workers pids) (pos (suc n)) before
      ∙ stopped-resume_workers pids n (stopped l (pos (suc n)) before),
)
Ended-end t l pids false v n before (a, b, d, e) =
    (a, b, d, ap (λ k. stopped k (pos (suc n)) before) e)

-- If a session that begins outside raw mode ends, and the terminal takes its attributes when the manager is
-- dropped, the terminal has the attributes of the beginning, and the flag of raw mode is clear.
-- A session without an error has cleared the flag of debugging and every listed process with a positive id
-- runs; one with an error leaves that flag set, and every such process but the debugged one stopped. In both cases
-- other processes run or not as before.
pub handle_session-ended_with :
    {Termios : Type 0} (cfmakeraw : Termios → Termios) (c : Calls) (ts : List Turn)
    (w v : World Termios) (pids : List ℤ) (debugged : Option ℤ) (ok : Bool) (n : ℕ) (before : Bool)
    → w.in_raw_mode ≡ false
    → c.drop_restores ≡ true
    → handle_session cfmakeraw c ts w pids debugged ≡ ended_with ok v
    → (v.terminal ≡ w.terminal)
      × (v.in_raw_mode ≡ false)
      × (v.is_debugging ≡ not ok)
      × (stopped v.signals (pos (suc n)) before ≡ (
          if ok && among n pids
          then false
          else if among n pids && not (spared n debugged)
          then true
          else stopped w.signals (pos (suc n)) before))
handle_session-ended_with cfmakeraw c ts w v pids debugged ok n before f on h =
    let l = w.signals ++ pause_workers pids debugged in
    let at_end : Ended w.terminal l pids (ended_with ok v) =
      subst (λ o. Ended w.terminal l pids o) h
        (handle_session-Ended cfmakeraw c ts w pids debugged f on) in
    let (a, b, d, e) = Ended-end w.terminal l pids ok v n before at_end in
    (
      a,
      b,
      d,
      e
          ∙ ap (λ x. if ok && among n pids then false else x)
              (stopped-append w.signals (pause_workers pids debugged) (pos (suc n)) before
                ∙ stopped-pause_workers pids debugged n (stopped w.signals (pos (suc n)) before)),
    )
