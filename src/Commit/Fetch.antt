-- ===== src/Commit/Fetch.antt =====
-- src/storage/kv_store.rs: `multi_get` against `get`.
use maestro_symphony.Prelude.{
  ℕ, suc, ◌+◌, ◌≡◌, refl, sym, subst, ap, ◌∙◌, arith, List, [], ◌∷◌, ◌++◌, Option, none, some,
  Bool-cases, inl, inr, ◌⊎◌, Bytes, All, length, length-append, lookup, lex_lt, list_eq, nat_eq, ok,
  bind-ok, ok-injective, ◌>>=◌,
}
use maestro_symphony.Table.{Table, encode_key}
use maestro_symphony.Store.{
  Db, IndexingTask, StorageAction, get, get_action, get_inner, decode_option, read, insert_sorted,
  sort_by_encoded, buffered, add_part, split_keys, fetch, multi_get,
}

All-append : {A : Type 0} (P : A → Type 0) (xs ys : List A) → All P xs → All P ys → All P (xs ++ ys)
All-append P [] ys h k = k
All-append P (x ∷ xs) ys h k = (h.0, All-append P xs ys h.1 k)

module _ {K : Type 0} (P : K × Bytes → Type 0) where
  insert_sorted-All :
      (k : K × Bytes) (ks : List (K × Bytes))
      → P k
      → All P ks
      → All P (insert_sorted k ks) × (length (insert_sorted k ks) ≡ length ks + 1)
  insert_sorted-All k [] p h = ((p, tt), refl)
  insert_sorted-All k (j ∷ ks) p h = elim (Bool-cases (lex_lt j.1 k.1)) [
    | inl e ↦ let (a, n) = insert_sorted-All k ks p h.1 in rw e ((h.0, a), omega (arith, n))
    | inr e ↦ rw e ((p, h), omega arith)
  ]

  sort_by_encoded-All :
      (ks : List (K × Bytes))
      → All P ks
      → All P (sort_by_encoded ks) × (length (sort_by_encoded ks) ≡ length ks)
  sort_by_encoded-All [] h = (tt, refl)
  sort_by_encoded-All (k ∷ ks) h =
      let (a, n) = sort_by_encoded-All ks h.1 in
      let (b, m) = insert_sorted-All k (sort_by_encoded ks) h.0 a in (b, omega (arith, n, m))

module _ (db : Db) (s : db.Store) {K V : Type 0} (t : Table K V) (task : IndexingTask) where
  -- The answer for a key is what `get` answers.
  abbrev pub Answers : K × Option V → Type 0
  Answers e = get db s t task e.0 ≡ ok e.1

  -- The key is not in the write buffer.
  abbrev Pending : K × Bytes → Type 0
  Pending e = (e.1 ≡ encode_key t e.0) × (lookup e.1 task.write_buffer ≡ none)

  abbrev Split : ℕ → List (K × Option V) × List (K × Bytes) → Type 0
  Split n parts = All Answers parts.0 × All Pending parts.1 × (length parts.0 + length parts.1 ≡ n)

  buffered-Split :
      (key : K) (w : Option StorageAction) (part : (K × Option V) ⊎ (K × Bytes)) (n : ℕ)
      (parts : List (K × Option V) × List (K × Bytes))
      → lookup (encode_key t key) task.write_buffer ≡ w
      → buffered db s t task key w ≡ ok part
      → Split n parts
      → Split (suc n) (add_part db s t task part parts)
  unfolding get
  buffered-Split key none part n parts q e h =
      subst (λ x. Split (suc n) (add_part db s t task x parts)) (ok-injective e)
        (h.0, ((refl, q), h.1), omega (arith, h.2))
  buffered-Split key (some action) part n parts q e h =
      let (v, a, r) =
        bind-ok (get_action db s t task (encode_key t key) (some action))
          (λ value. ok (inl (key, value))) part e in
      subst (λ x. Split (suc n) (add_part db s t task x parts)) (ok-injective r)
        ((ap (get_action db s t task (encode_key t key)) q ∙ a, h.0), h.1, omega (arith, h.2))

  split_keys-Split :
      (keys : List K) (parts : List (K × Option V) × List (K × Bytes))
      → split_keys db s t task keys ≡ ok parts
      → Split (length keys) parts
  unfolding split_keys
  split_keys-Split [] parts e = subst (Split 0) (ok-injective e) (tt, tt, refl)
  split_keys-Split (key ∷ keys) parts e =
      let w : Option StorageAction = lookup (encode_key t key) task.write_buffer in
      let (part, a, r) =
        bind-ok (buffered db s t task key w)
          (λ part. split_keys db s t task keys >>= λ parts. ok (add_part db s t task part parts))
          parts e in
      let (parts', b, c) =
        bind-ok (split_keys db s t task keys) (λ parts. ok (add_part db s t task part parts)) parts
          r in
      subst (Split (suc (length keys))) (ok-injective c)
        (buffered-Split key w part (length keys) parts' refl a (split_keys-Split keys parts' b))

  fetch-Answers :
      (keys : List (K × Bytes)) (out : List (K × Option V))
      → All Pending keys
      → fetch db s t task keys ≡ ok out
      → All Answers out × (length out ≡ length keys)
  unfolding fetch get get_inner
  fetch-Answers [] out h e = subst (λ x. All Answers x × (length x ≡ 0)) (ok-injective e) (tt, refl)
  fetch-Answers ((key, raw) ∷ keys) out h e =
      let (v, a, r) =
        bind-ok (decode_option t (read db s task raw))
          (λ v. fetch db s t task keys >>= λ rest. ok ((key, v) ∷ rest)) out e in
      let (rest, b, c) = bind-ok (fetch db s t task keys) (λ rest. ok ((key, v) ∷ rest)) out r in
      let (n, m) = fetch-Answers keys rest h.1 b in
      let q : Answers (key, v) =
        ap (get_action db s t task (encode_key t key))
          (ap (λ x. lookup x task.write_buffer) (sym h.0.0) ∙ h.0.1)
        ∙ (ap (λ x. decode_option t (read db s task x)) (sym h.0.0) ∙ a) in
      subst (λ x. All Answers x × (length x ≡ suc (length keys))) (ok-injective c)
        ((q, n), omega (arith, m))

  -- Where it succeeds, `multi_get` answers as many times as it has keys, and each answer is the one
  -- of `get` for its key.
  pub multi_get-get :
      (keys : List K) (out : List (K × Option V))
      → multi_get db s t task keys ≡ ok out
      → All Answers out × (length out ≡ length keys)
  unfolding multi_get
  multi_get-get keys out e =
      let ((answers, to_fetch), a, r) = bind-ok (split_keys db s t task keys) _ out e in
      let (fetched, b, c) =
        bind-ok (fetch db s t task (sort_by_encoded to_fetch)) (λ fetched. ok (answers ++ fetched))
          out r in
      let (p, q, n) = split_keys-Split keys (answers, to_fetch) a in
      let (p', n') = sort_by_encoded-All Pending to_fetch q in
      let (f, m) = fetch-Answers (sort_by_encoded to_fetch) fetched p' b in
      subst (λ x. All Answers x × (length x ≡ length keys)) (ok-injective c)
        (
          All-append Answers answers fetched p f,
          omega (arith, length-append answers fetched, n, n', m),
        )
