-- ===== src/Indexers/Loop.antt =====
-- The `for` loops of the indexers, whose body may fail.
use maestro_symphony.Prelude.{◌≡◌, List, [], ◌∷◌, Result, ok, ◌>>=◌, bind-ok, ok-injective, subst}

module _ {E S A : Type 0} where
  abbrev pub for_each : (A → S → Result E S) → List A → S → Result E S
  for_each f [] s = ok s
  for_each f (x ∷ xs) s = do s' ← f x s; for_each f xs s'

  -- What every round does to the state, the loop does.
  pub for_each-ok :
      (R : S → S → Type 0) (f : A → S → Result E S)
      → ((a : S) → R a a)
      → ((a b c : S) → R a b → R b c → R a c)
      → ((x : A) (a b : S) → f x a ≡ ok b → R a b)
      → (xs : List A) (a b : S) → for_each f xs a ≡ ok b
      → R a b
  for_each-ok R f refl_R trans_R step [] a b e = subst (R a) (ok-injective e) (refl_R a)
  for_each-ok R f refl_R trans_R step (x ∷ xs) a c e =
      let (b, p, q) = bind-ok (f x a) (for_each f xs) c e in
      trans_R a b c (step x a b p) (for_each-ok R f refl_R trans_R step xs b c q)
