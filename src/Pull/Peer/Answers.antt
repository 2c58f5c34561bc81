-- ===== src/Pull/Peer/Answers.antt =====
-- src/sync/stages/pull/peer.rs: what the client of a session gets.
use maestro_symphony.Prelude.{
  ℕ, zero, suc, ◌≡◌, ◌↔◌, refl, ap, arith, subst, ◌∙◌, List, [], ◌∷◌, ◌++◌, Option, some,
  Option-cases, true, Bool-cases, Bytes, length, list_beq, list_beq_iff, nat_eq, list_eq,
  Result-cases, ok, ok-injective, inl, inr,
}
use maestro_symphony.Pull.Fetch.{Block}
use maestro_symphony.Pull.Peer.{get_blocks_request}
use maestro_symphony.Pull.Peer.Client.{receive_blocks, decode_blocks, answer_blocks, get_blocks}

receive_blocks-append :
    (raws rest : List Bytes) → receive_blocks (length raws) (raws ++ rest) ≡ ok (raws, rest)
unfolding receive_blocks
receive_blocks-append [] rest = refl
receive_blocks-append (raw ∷ raws) rest = rw (receive_blocks-append raws rest) refl

receive_blocks-eq_ok :
    (n : ℕ) (arriving raws rest : List Bytes)
    → receive_blocks n arriving ≡ ok (raws, rest)
    → (arriving ≡ raws ++ rest) × (length raws ≡ n)
unfolding receive_blocks
receive_blocks-eq_ok zero arriving raws rest e = ground (arith, e)
receive_blocks-eq_ok (suc n) [] raws rest e = absurd (cc e)
receive_blocks-eq_ok (suc n) (raw ∷ arriving) raws rest e =
    elim (Result-cases (receive_blocks n arriving)) [
      | inr (x, q) ↦ absurd (cc (rw q at e))
      | inl (r, q) ↦
          let (a, l) = receive_blocks-eq_ok n arriving r.0 r.1 q in
          ground (arith, a, l, (rw q at e))
    ]

module _ (decode_block : Bytes → Option Block) where
  -- The raw blocks decode to the blocks, whose hashes are those requested.
  abbrev pub AreRequested : List Bytes → List Bytes → List Block → Type 0
  AreRequested [] [] [] = Unit
  AreRequested (hash ∷ hashes) (raw ∷ raws) (b ∷ bs) =
      (decode_block raw ≡ some b) × (b.block_hash ≡ hash) × AreRequested hashes raws bs
  AreRequested hashes raws bs = ⊥

  decode_blocks-AreRequested :
      (hashes raws : List Bytes) (bs : List Block)
      → length raws ≡ length hashes
      → decode_blocks decode_block hashes raws ≡ ok bs
      → AreRequested hashes raws bs
  unfolding decode_blocks
  decode_blocks-AreRequested [] [] bs l e = subst (AreRequested [] []) (ok-injective e) tt
  decode_blocks-AreRequested [] (raw ∷ raws) bs l e = absurd (omega arith)
  decode_blocks-AreRequested (hash ∷ hashes) [] bs l e = absurd (omega arith)
  decode_blocks-AreRequested (hash ∷ hashes) (raw ∷ raws) bs l e =
      elim (Option-cases (decode_block raw)) [
        | inl d ↦ absurd (cc (rw d at e))
        | inr (b, d) ↦ elim (Bool-cases (list_beq b.block_hash hash)) [
          | inr h ↦ absurd (cc (rw (d, h) at e))
          | inl h ↦ elim (Result-cases (decode_blocks decode_block hashes raws)) [
            | inr (x, q) ↦ absurd (cc (rw (d, h, q) at e))
            | inl (more, q) ↦
                subst (AreRequested (hash ∷ hashes) (raw ∷ raws)) (ok-injective (rw (d, h, q) at e))
                  (
                    d,
                    (list_beq_iff b.block_hash hash).0 h,
                    decode_blocks-AreRequested hashes raws more (omega arith) q,
                  )
          ]
        ]
      ]

  AreRequested-decode_blocks :
      (hashes raws : List Bytes) (bs : List Block)
      → AreRequested hashes raws bs
      → (decode_blocks decode_block hashes raws ≡ ok bs) × (length raws ≡ length hashes)
  unfolding decode_blocks
  AreRequested-decode_blocks [] [] [] r = (refl, refl)
  AreRequested-decode_blocks (hash ∷ hashes) (raw ∷ raws) (b ∷ bs) r =
      let (e, l) = AreRequested-decode_blocks hashes raws bs r.2 in
      (rw (r.0, (list_beq_iff b.block_hash hash).1 r.1, e) refl, omega (arith, l))
  AreRequested-decode_blocks [] [] (b ∷ bs) r = absurd r
  AreRequested-decode_blocks [] (raw ∷ raws) bs r = absurd r
  AreRequested-decode_blocks (hash ∷ hashes) [] bs r = absurd r
  AreRequested-decode_blocks (hash ∷ hashes) (raw ∷ raws) [] r = absurd r

  answer_blocks-eq_ok :
      (hashes arriving rest : List Bytes) (bs : List Block)
      → answer_blocks decode_block hashes arriving ≡ ok (bs, rest)
      → (raws : List Bytes) × (arriving ≡ raws ++ rest) × AreRequested hashes raws bs
  unfolding answer_blocks
  answer_blocks-eq_ok hashes arriving rest bs e =
      elim (Result-cases (receive_blocks (length hashes) arriving)) [
        | inr (x, q) ↦ absurd (cc (rw q at e))
        | inl (r, q) ↦ elim (Result-cases (decode_blocks decode_block hashes r.0)) [
          | inr (x, d) ↦ absurd (cc (rw (q, d) at e))
          | inl (blocks, d) ↦
              let (a, l) = receive_blocks-eq_ok (length hashes) arriving r.0 r.1 q in
              let same : (blocks, r.1) ≡ (bs, rest) = ok-injective (rw (q, d) at e) in
              (
                r.0,
                a ∙ ap (λ t. r.0 ++ t.1) same,
                subst (AreRequested hashes r.0) (ap (λ t. t.0) same)
                    (decode_blocks-AreRequested hashes r.0 blocks l d),
              )
        ]
      ]

  answer_blocks-of_requested :
      (hashes raws rest : List Bytes) (bs : List Block)
      → AreRequested hashes raws bs
      → answer_blocks decode_block hashes (raws ++ rest) ≡ ok (bs, rest)
  unfolding answer_blocks
  answer_blocks-of_requested hashes raws rest bs r =
      let (e, l) = AreRequested-decode_blocks hashes raws bs r in
      rw (← l, receive_blocks-append raws rest, e) refl

  -- Where the handler takes requests, the blocks are asked for by their hashes, and the request is
  -- answered exactly where the next blocks to arrive, as many as were asked for, are the blocks of the
  -- hashes in the order of the request; these are the answer, and what arrives after them is left.
  pub get_blocks-requested :
      (hashes arriving rest : List Bytes) (bs : List Block)
      → (get_blocks decode_block true hashes arriving
          ≡ (some (get_blocks_request hashes), ok (bs, rest)))
        ↔ ((raws : List Bytes) × (arriving ≡ raws ++ rest) × AreRequested hashes raws bs)
  unfolding get_blocks
  get_blocks-requested hashes arriving rest bs = (
    λ e. answer_blocks-eq_ok hashes arriving rest bs (ap (λ x. x.1) e),
    λ (raws, a, r).
        ap (λ x. (some (get_blocks_request hashes), x))
          (rw a (answer_blocks-of_requested hashes raws rest bs r)),
  )
