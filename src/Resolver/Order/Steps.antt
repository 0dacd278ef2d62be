-- ===== src/Resolver/Order/Steps.antt =====
-- The order of the fixtures through each step of the resolution (src/resolver.rs, resolve_fixture).
use tach_core.Base.{
  ℕ, zero, suc, Text, contains, contains-append, contains_single, contains_self, contains_of_tail,
  ==_iff, ◌==◌, true, false, ◌||◌, Option, none, some, List, [], ◌∷◌, ◌++◌, All, All-map, pop,
  pop-append, ◌≡◌, refl, arith, Bool-cases, inl, inr, list_eq, nat_eq,
}
use tach_core.Resolver.Registry.{Found, is_builtin_fixture}
use tach_core.Resolver.Outcome.{Outcome, ok, ok_inj, >>=-eq-ok}
use tach_core.Resolver.Resolve.{
  ResolvedFixture, Progress, enter, leave, resolve_each, resolve_found, resolve_step,
  resolve_fixture, resolved_fixture,
}
use tach_core.Resolver.Order.{names, IsOrdered-snoc, IsSound, Grows}

module _ (find : Text → Option Found) (test_name : Text) where
  -- What a successful resolution of `name` promises.
  abbrev pub Resolves : Progress → Text → Progress → Type 0
  Resolves p name p' = IsSound find p' × Grows p p' × (contains p'.visited name ≡ true)

  abbrev pub IsGood : (Text → Progress → Outcome Progress) → Type 0
  IsGood resolve =
      (name : Text) (p p' : Progress) → IsSound find p → resolve name p ≡ ok p' → Resolves p name p'

  pub enter-IsSound :
      (name : Text) (p : Progress)
      → contains p.visited name ≡ false
      → IsSound find p
      → IsSound find (enter find test_name name p)
  enter-IsSound name p new s = record {
    ordered = s.ordered;
    visited_ready = s.visited_ready;
    resolved_visited = s.resolved_visited;
    disjoint = λ d h. ground (
      arith,
      contains-append p.stack (name ∷ []) d,
      contains_single name d,
      ==_iff name d,
      s.disjoint d,
    );
  }

  -- The rest of the file follows `resolve_step` through its branches.
  builtin_Resolves :
      (name : Text) (p : Progress)
      → contains p.stack name ≡ false
      → is_builtin_fixture name ≡ true
      → IsSound find p
      → Resolves p name (record p { visited = name ∷ p.visited })
  unfolding contains
  builtin_Resolves name p off builtin s = (
    record {
      ordered = s.ordered;
      visited_ready = λ d h. ground (arith, ==_iff name d, s.visited_ready d);
      resolved_visited = λ d h. ground (arith, s.resolved_visited d);
      disjoint = λ d h. ground (arith, ==_iff name d, s.disjoint d);
    },
    record { same_stack = refl; keeps = λ d h. contains_of_tail name d p.visited h },
    contains_self name p.visited,
  )

  names-append :
      (rs : List ResolvedFixture) (f : ResolvedFixture) (d : Text)
      → contains (names (rs ++ f ∷ [])) d ≡ (contains (names rs) d || (f.name == d))
  unfolding contains
  names-append [] f d = ground arith
  names-append (r ∷ rs) f d = ground (arith, names-append rs f d)

  leave-Resolves :
      (name : Text) (found : Found) (p p' : Progress)
      → find name ≡ some found
      → contains p.stack name ≡ false
      → IsSound find p'
      → Grows (enter find test_name name p) p'
      → All (λ d. contains p'.visited d ≡ true) found.0.dependencies
      → Resolves p name (leave find test_name name found p')
  unfolding leave contains
  leave-Resolves name found p p' hit off s g deps = (
    record {
      ordered = IsOrdered-snoc find [] p'.resolved _ s.ordered (record {
        definition = found.0;
        found = hit;
        same_scope = refl;
        deps_ready = All-map _ _ found.0.dependencies s.visited_ready deps;
        is_new = is_new;
      });
      visited_ready = λ d h. ground (
        arith,
        ==_iff name d,
        names-append p'.resolved (resolved_fixture find test_name name found) d,
        s.visited_ready d,
      );
      resolved_visited = λ d h. ground (
        arith,
        names-append p'.resolved (resolved_fixture find test_name name found) d,
        s.resolved_visited d,
      );
      disjoint = λ d h. disjoint d (rw popped at h);
    },
    record { same_stack = popped; keeps = λ d h. contains_of_tail name d p'.visited (g.keeps d h) },
    contains_self name p'.visited,
  )
    where
      popped : pop p'.stack ≡ p.stack
      popped = rw g.same_stack (pop-append p.stack name)

      on_stack : (d : Text) → contains p'.stack d ≡ (contains p.stack d || (name == d))
      on_stack d = ground (arith, g.same_stack, contains-append p.stack (name ∷ []) d)

      is_new : contains (names p'.resolved) name ≡ false
      is_new =
          ground (arith, on_stack name, ==_iff name name, s.resolved_visited name, s.disjoint name)

      disjoint : (d : Text) → contains p.stack d ≡ true → contains (name ∷ p'.visited) d ≡ false
      disjoint d h = ground (arith, on_stack d, ==_iff name d, s.disjoint d)

  Grows-trans : {p q r : Progress} → Grows p q → Grows q r → Grows p r
  Grows-trans g h = record {
    same_stack = ground (arith, g.same_stack, h.same_stack);
    keeps = λ d e. h.keeps d (g.keeps d e);
  }

  pub resolve_each-Resolves :
      (resolve : Text → Progress → Outcome Progress)
      → IsGood resolve
      → (deps : List Text) (p p' : Progress) → IsSound find p
      → resolve_each find test_name resolve deps p ≡ ok p'
      → IsSound find p' × Grows p p' × All (λ d. contains p'.visited d ≡ true) deps
  unfolding resolve_each
  resolve_each-Resolves resolve good [] p p' s e =
      rw (← ok_inj e) (s, record { same_stack = refl; keeps = λ d h. h }, tt)
  resolve_each-Resolves resolve good (dep ∷ deps) p p' s e =
      let (q, first, rest) =
        >>=-eq-ok (resolve dep p) (λ q. resolve_each find test_name resolve deps q) e in
      let (sq, gq, seen) = good dep p q s first in
      let (s', g, all_seen) = resolve_each-Resolves resolve good deps q p' sq rest in
      (s', Grows-trans gq g, (g.keeps dep seen, all_seen))

  resolve_found-Resolves :
      (resolve : Text → Progress → Outcome Progress)
      → IsGood resolve
      → (name : Text) (found : Option Found) (p p' : Progress) → find name ≡ found
      → contains p.visited name ≡ false
      → contains p.stack name ≡ false
      → IsSound find p
      → resolve_found find test_name resolve name found p ≡ ok p'
      → Resolves p name p'
  unfolding resolve_found
  resolve_found-Resolves resolve good name none p p' hit new off s e = cc
  resolve_found-Resolves resolve good name (some (fixture, source_file)) p p' hit new off s e =
      let after : Progress → Outcome Progress =
        λ q. ok (leave find test_name name (fixture, source_file) q) in
      let start = enter find test_name name p in
      let (q, deps, last) =
        >>=-eq-ok (resolve_each find test_name resolve fixture.dependencies start) after e in
      let (sq, g, seen) =
        resolve_each-Resolves resolve good fixture.dependencies start q (enter-IsSound name p new s)
          deps in
      rw (← ok_inj last) (leave-Resolves name (fixture, source_file) p q hit off sq g seen)

  resolve_step-Resolves :
      (resolve : Text → Progress → Outcome Progress)
      → IsGood resolve
      → IsGood (resolve_step find test_name resolve)
  unfolding resolve_step
  resolve_step-Resolves resolve good name p p' s e = elim (Bool-cases (contains p.visited name)) [
    | inl old ↦
        let e' : ok p ≡ ok p' = rw old at e in
        rw (← ok_inj e') (s, record { same_stack = refl; keeps = λ d h. h }, old)
    | inr new ↦ elim (Bool-cases (contains p.stack name)) [
      | inl on ↦ ground arith
      | inr off ↦ elim (Bool-cases (is_builtin_fixture name)) [
        | inl builtin ↦
            let e' : ok (record p { visited = name ∷ p.visited }) ≡ ok p' =
              rw (new, off, builtin) at e in
            rw (← ok_inj e') (builtin_Resolves name p off builtin s)
        | inr own ↦
            resolve_found-Resolves resolve good name (find name) p p' refl new off s
              (rw (new, off, own) at e)
      ]
    ]
  ]

  pub resolve_fixture-Resolves : (fuel : ℕ) → IsGood (resolve_fixture find test_name fuel)
  unfolding resolve_fixture
  resolve_fixture-Resolves zero name p p' s e = cc
  resolve_fixture-Resolves (suc fuel) name p p' s e =
      resolve_step-Resolves (resolve_fixture find test_name fuel) (resolve_fixture-Resolves fuel)
        name p p' s e
