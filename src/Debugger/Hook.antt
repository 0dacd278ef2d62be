-- ===== src/Debugger/Hook.antt =====
-- A panic at any time finds the terminal's attributes again (src/debugger.rs).
use mathlib.Core.Path.{subst}
use tach_core.Base.{◌≡◌, ◌⊎◌, inl, inr, refl, Bool, true, false, some, List, [], ◌∷◌}
use tach_core.Debugger.Terminal.{
  cooked, raw, World, Managed, new, enter_raw_mode, restore, dropped, panic_hook,
}

-- What is called of a manager, and whether the terminal takes the attributes.
pub data Operation : Type 0 where
  enters : Bool → Operation
  restores : Bool → Operation

module _ {Termios : Type 0} (cfmakeraw : Termios → Termios) where
  abbrev pub operate : List Operation → Managed Termios → Managed Termios
  operate [] s = s
  operate (enters ok ∷ os) s = operate os (enter_raw_mode cfmakeraw ok s).1
  operate (restores ok ∷ os) s = operate os (restore ok s).1

-- The attributes are the saved ones, or the flag tells that they are to be set.
abbrev pub Safe : {Termios : Type 0} → Termios → Managed Termios → Type 0
Safe t (m, w) =
    (m.saved ≡ some t)
    × (w.original_termios ≡ some t)
    × ((m.current_mode ≡ cooked) × (w.terminal ≡ t) × (w.in_raw_mode ≡ false)
        ⊎ (m.current_mode ≡ raw) × (w.in_raw_mode ≡ true))

module _ {Termios : Type 0} (cfmakeraw : Termios → Termios) (t : Termios) where
  pub enter_raw_mode-Safe :
      (ok : Bool) (s : Managed Termios) → Safe t s → Safe t (enter_raw_mode cfmakeraw ok s).1
  unfolding enter_raw_mode
  enter_raw_mode-Safe ok (m, w) (a, b, inr (c, d)) = rw (c, enter_raw_mode) (a, b, inr (c, d))
  enter_raw_mode-Safe true (m, w) (a, b, inl (c, d, e)) =
      rw (c, a, enter_raw_mode) (a, b, inr (refl, refl))
  enter_raw_mode-Safe false (m, w) (a, b, inl (c, d, e)) =
      rw (c, a, enter_raw_mode) (a, b, inl (c, d, e))

  pub restore-Safe : (ok : Bool) (s : Managed Termios) → Safe t s → Safe t (restore ok s).1
  unfolding restore
  restore-Safe ok (m, w) (a, b, inl (c, d, e)) = rw (c, restore) (a, b, inl (c, d, e))
  restore-Safe true (m, w) (a, b, inr (c, d)) = rw (c, a, restore) (a, b, inl (refl, refl, refl))
  restore-Safe false (m, w) (a, b, inr (c, d)) = rw (c, a, restore) (a, b, inr (c, d))

  operate-Safe :
      (os : List Operation) (s : Managed Termios) → Safe t s → Safe t (operate cfmakeraw os s)
  operate-Safe [] s h = h
  operate-Safe (enters ok ∷ os) s h =
      operate-Safe os (enter_raw_mode cfmakeraw ok s).1 (enter_raw_mode-Safe ok s h)
  operate-Safe (restores ok ∷ os) s h = operate-Safe os (restore ok s).1 (restore-Safe ok s h)

  panic_hook-Safe :
      (s : Managed Termios)
      → Safe t s
      → ((panic_hook true s.1).terminal ≡ t) × ((panic_hook true s.1).in_raw_mode ≡ false)
  unfolding panic_hook
  panic_hook-Safe (m, w) (a, b, inl (c, d, e)) = rw (e, panic_hook) (d, refl)
  panic_hook-Safe (m, w) (a, b, inr (c, d)) = rw (d, b, panic_hook) (refl, refl)

  -- A drop restores the attributes.
  pub dropped-Safe :
      (s : Managed Termios)
      → Safe t s
      → ((dropped true s).terminal ≡ t) × ((dropped true s).in_raw_mode ≡ false)
  unfolding dropped restore
  dropped-Safe (m, w) (a, b, inl (c, d, e)) = rw (c, dropped) (d, e)
  dropped-Safe (m, w) (a, b, inr (c, d)) = rw (c, a, dropped) (refl, refl)

pub new-Safe :
    {Termios : Type 0} (w : World Termios) (s : Managed Termios)
    → w.in_raw_mode ≡ false
    → new true w ≡ some s
    → Safe w.terminal s
unfolding new
new-Safe {Termios} w (m, v) f h =
    let made : Managed Termios = (
      record { saved = some w.terminal; current_mode = cooked },
      record w { original_termios = some w.terminal },
    ) in
    let e : made ≡ (m, v) = cc in subst (λ s. Safe w.terminal s) e (refl, refl, inl (refl, refl, f))

-- However the terminal is switched by a manager that was made outside raw mode, and whichever of these calls
-- fail, a panic then sets the attributes of the beginning again, if the terminal takes them, and so does
-- dropping the manager; both clear the flag of raw mode.
pub panic_hook-operate :
    {Termios : Type 0} (cfmakeraw : Termios → Termios) (w : World Termios) (s : Managed Termios)
    (os : List Operation)
    → w.in_raw_mode ≡ false
    → new true w ≡ some s
    → ((panic_hook true (operate cfmakeraw os s).1).terminal ≡ w.terminal)
      × ((panic_hook true (operate cfmakeraw os s).1).in_raw_mode ≡ false)
      × ((dropped true (operate cfmakeraw os s)).terminal ≡ w.terminal)
      × ((dropped true (operate cfmakeraw os s)).in_raw_mode ≡ false)
panic_hook-operate cfmakeraw w s os f made =
    let safe = operate-Safe cfmakeraw w.terminal os s (new-Safe w s f made) in
    let (a, b) = panic_hook-Safe cfmakeraw w.terminal (operate cfmakeraw os s) safe in
    let (c, d) = dropped-Safe cfmakeraw w.terminal (operate cfmakeraw os s) safe in (a, b, c, d)
