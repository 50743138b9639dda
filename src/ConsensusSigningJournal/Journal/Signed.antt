-- ===== src/ConsensusSigningJournal/Journal/Signed.antt =====
-- A journal signs one block for a place, and nothing below a place that it has signed.
use junca_social_ecosystem_c.Common.{
  ◌≡◌, refl, sym, ap, ◌∙◌, ◌⊎◌, inl, inr, true, false, Option, none, some, List, [], ◌∷◌, arith,
  Option-cases, nat_eq, list_eq, pair_eq, text_iff, ok, err, Verdict, is_true, lookup,
  lookup-insert_self, lookup-insert_new, Bytes, Platform,
}
use junca_social_ecosystem_c.ConsensusSigningJournal.Journal.{
  SignatureRow, RowKey, Journal, Request, place, is_signature_length, verify_signature, replay,
  below_mark, write_vote, sign, answer, get_or_sign, Call, Outcome, after, run,
}

module _ (platform : Platform) (j : Journal) (q : Request) (signer : Option Bytes)
    (verifier : Bytes → Verdict) where
  -- A call that replays a stored row, and one that signs.
  pub record Replayed (s : Bytes) (j' : Journal) : Type 0 where
    pub row : SignatureRow
    pub stored : lookup (place q) j.signatures ≡ some row
    pub same_block : row.block_hash ≡ q.block_hash
    pub same_signature : s ≡ row.signature
    pub unchanged : j' ≡ j
    pub verified : is_true (verifier s) ≡ true

  pub record Signs (s : Bytes) (j' : Journal) : Type 0 where
    pub new : lookup (place q) j.signatures ≡ none
    pub not_below : below_mark (lookup q.validator_id j.watermarks) (q.height, q.round) ≡ false
    pub provided : signer ≡ some s
    pub sized : is_signature_length s ≡ true
    pub verified : is_true (verifier s) ≡ true
    pub written : j' ≡ write_vote platform j q s

  pub get_or_sign-ok :
      (s : Bytes) (j' : Journal)
      → get_or_sign platform j q signer verifier ≡ ok (s, j')
      → Replayed s j' ⊎ Signs s j'
  unfolding get_or_sign answer replay sign verify_signature
  get_or_sign-ok s j' h = elim (Option-cases (lookup (place q) j.signatures)) [
    | inl new ↦ inr (record {
      new = new;
      not_below = ground arith;
      provided = ground arith;
      sized = ground arith;
      verified = ground arith;
      written = ground arith;
    })
    | inr (row, stored) ↦ inl (record {
      row = row;
      stored = stored;
      same_block = ground (arith, text_iff row.block_hash q.block_hash);
      same_signature = ground arith;
      unchanged = ground arith;
      verified = ground arith;
    })
  ]

module _ (platform : Platform) where
  abbrev row_of : Request → Bytes → SignatureRow
  row_of q s = record {
    block_hash = q.block_hash;
    payload_digest = platform.sha256 q.signing_payload;
    signature = s;
  }

  -- Rows are kept by every call.
  after-row :
      (j : Journal) (q : Request) (signer : Option Bytes) (verifier : Bytes → Verdict) (k : RowKey)
      (row : SignatureRow)
      → lookup k j.signatures ≡ some row
      → lookup k (after j (get_or_sign platform j q signer verifier)).signatures ≡ some row
  unfolding write_vote
  after-row j q signer verifier k row e = go (get_or_sign platform j q signer verifier) refl
    where
      go :
          (o : Outcome)
          → get_or_sign platform j q signer verifier ≡ o
          → lookup k (after j o).signatures ≡ some row
      go (err x) h = e
      go (ok (s, j')) h = elim (get_or_sign-ok platform j q signer verifier s j' h) [
        | inl r ↦ rw r.unchanged e
        | inr n ↦ rw n.written (kept n.new)
      ]
        where
          kept :
              lookup (place q) j.signatures ≡ none
              → lookup k (write_vote platform j q s).signatures ≡ some row
          kept new = lookup-insert_new (place q) k (row_of q s) j.signatures new e

  run-row :
      (j : Journal) (calls : List Call) (k : RowKey) (row : SignatureRow)
      → lookup k j.signatures ≡ some row
      → lookup k (run platform j calls).signatures ≡ some row
  unfolding run
  run-row j [] k row e = e
  run-row j ((q, signer, verifier) ∷ calls) k row e =
      run-row (after j (get_or_sign platform j q signer verifier)) calls k row
        (after-row j q signer verifier k row e)

  -- After a call that returns, the row of its place holds its block and its signature.
  signed-row :
      (j : Journal) (q : Request) (signer : Option Bytes) (verifier : Bytes → Verdict) {s : Bytes}
      {j' : Journal}
      → get_or_sign platform j q signer verifier ≡ ok (s, j')
      → (row : SignatureRow) × (lookup (place q) j'.signatures ≡ some row)
        × (row.block_hash ≡ q.block_hash)
        × (row.signature ≡ s)
  unfolding write_vote
  signed-row j q signer verifier {s} {j'} h =
      elim (get_or_sign-ok platform j q signer verifier s j' h) [
        | inl r ↦ (r.row, rw r.unchanged r.stored, r.same_block, sym r.same_signature)
        | inr n ↦ (
          row_of q s,
          rw n.written (lookup-insert_self (place q) (row_of q s) j.signatures),
          refl,
          refl,
        )
      ]

  -- If a call returns, then after any history of calls a call for the same validator, height and
  -- round that returns has asked for the same block, and returns the same signature, whatever the
  -- signers and the verifiers.
  pub signed_once :
      (j : Journal) (q q' : Request) (calls : List Call) (signer signer' : Option Bytes)
      (verifier verifier' : Bytes → Verdict) {s s' : Bytes} {j' j'' : Journal}
      → get_or_sign platform j q signer verifier ≡ ok (s, j')
      → place q' ≡ place q
      → get_or_sign platform (run platform j' calls) q' signer' verifier' ≡ ok (s', j'')
      → (q'.block_hash ≡ q.block_hash) × (s' ≡ s)
  signed_once j q q' calls signer signer' verifier verifier' {s} {s'} {j'} {j''} h same h' =
      let (row, at, block, signature) = signed-row j q signer verifier h in
      let kept : lookup (place q') (run platform j' calls).signatures ≡ some row =
        rw same (run-row j' calls (place q) row at) in
      elim (get_or_sign-ok platform (run platform j' calls) q' signer' verifier' s' j'' h') [
        | inl r ↦
            let stored = r.stored in
            let e : r.row ≡ row = cc in
            (
              sym r.same_block ∙ ap (λ (x : SignatureRow). x.block_hash) e ∙ block,
              r.same_signature ∙ ap (λ (x : SignatureRow). x.signature) e ∙ signature,
            )
        | inr n ↦ absurd (cc (n.new, kept))
      ]
