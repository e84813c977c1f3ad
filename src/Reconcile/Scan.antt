-- ===== src/Reconcile/Scan.antt =====
-- internal/reconcile/model.go: `ScanLedger`. SCAN answers page by page; what it answers and what each
-- key holds when it is read are arguments, and so is the decoding of the JSON.
use seckill.Errors.{Result, ok, ◌>>=◌, >>=-eq-ok, err}
use seckill.Prelude.{
  refl, String, Option, List, some, ◌∷◌, ◌≡◌, IsIn, ◌⊎◌, [], none, inl, inr, subst, sym, ◌∙◌, ap,
}

module _ {Raw Entry : Type 0} (read : String → Result (Option Raw))
    (decode : Raw → Option Entry) where
  added : Option Entry → List Entry → List Entry
  added none es = es
  added (some e) es = e ∷ es

  -- a key that is gone, or does not decode, is passed over
  decoded : Option Raw → List Entry → List Entry
  unfolding added
  decoded none es = es
  decoded (some raw) es = added (decode raw) es

  -- the loop over the keys of a page, before the entries of what follows
  unfoldable scan_keys : List String → Result (List Entry) → Result (List Entry)
  unfolding decoded
  scan_keys [] rest = rest
  scan_keys (k ∷ ks) rest = do raw ← read k; es ← scan_keys ks rest; ok (decoded raw es)

  -- `ScanLedger` over the pages, of which the last has the cursor 0
  unfoldable scan_ledger : List (Result (List String)) → Result (List Entry)
  unfolding scan_keys
  scan_ledger [] = ok []
  scan_ledger (page ∷ pages) = let rest = scan_ledger pages in page >>= λ keys. scan_keys keys rest

  -- whether a page lists a key
  abbrev Lists : String → List (Result (List String)) → Type 0
  Lists k [] = ⊥
  Lists k (ok keys ∷ pages) = IsIn k keys ⊎ Lists k pages
  Lists k (err e ∷ pages) = Lists k pages

  IsIn-added : (e : Entry) (o : Option Entry) (es : List Entry) → IsIn e es → IsIn e (added o es)
  unfolding added
  IsIn-added e none es h = h
  IsIn-added e (some f) es h = inr h

  IsIn-decoded : (e : Entry) (o : Option Raw) (es : List Entry) → IsIn e es → IsIn e (decoded o es)
  unfolding decoded
  IsIn-decoded e none es h = h
  IsIn-decoded e (some raw) es h = IsIn-added e (decode raw) es h

  decoded_lem :
      (raw : Raw) (e : Entry) (es : List Entry)
      → decode raw ≡ some e
      → IsIn e (decoded (some raw) es)
  unfolding decoded
  decoded_lem raw e es h = subst (λ o. IsIn e (added o es)) (sym h) (inl refl)

  ok_inj : {A : Type 0} (a b : A) → ok a ≡ ok b → a ≡ b
  ok_inj a b h = cc

  -- the entries of what follows a page are among those of the page and what follows
  scan_keys-rest :
      (ks : List String) (rest : Result (List Entry)) {es : List Entry}
      → scan_keys ks rest ≡ ok es
      → (fs : List Entry) × (rest ≡ ok fs) × ((e : Entry) → IsIn e fs → IsIn e es)
  unfolding scan_keys
  scan_keys-rest [] rest {es} h = (es, h, λ e i. i)
  scan_keys-rest (k ∷ ks) rest {es} h =
      let (raw, got, h1) = >>=-eq-ok (read k) _ h in
      let (gs, rest_ok, h2) = >>=-eq-ok (scan_keys ks rest) _ h1 in
      let (fs, ok_, sub) = scan_keys-rest ks rest rest_ok in
      let same = ok_inj (decoded raw gs) es h2 in
      (fs, ok_, λ e i. subst (IsIn e) same (IsIn-decoded e raw gs (sub e i)))

  scan_keys-IsIn :
      (ks : List String) (rest : Result (List Entry)) (k : String) {raw : Raw} {e : Entry}
      {es : List Entry}
      → read k ≡ ok (some raw)
      → decode raw ≡ some e
      → IsIn k ks
      → scan_keys ks rest ≡ ok es
      → IsIn e es
  unfolding scan_keys
  scan_keys-IsIn [] rest k r d i h = absurd i
  scan_keys-IsIn (j ∷ ks) rest k {raw} {e} {es} r d i h =
      let (o, got, h1) = >>=-eq-ok (read j) _ h in
      let (gs, rest_ok, h2) = >>=-eq-ok (scan_keys ks rest) _ h1 in
      let same = ok_inj (decoded o gs) es h2 in
      subst (IsIn e) same (elim i [
        | inl here ↦
            let reads = ok_inj (some raw) o (sym r ∙ ap read here ∙ got) in
            subst (λ x. IsIn e (decoded x gs)) reads (decoded_lem raw e gs d)
        | inr later ↦ IsIn-decoded e o gs (scan_keys-IsIn ks rest k r d later rest_ok)
      ])

  -- If the scan returns, the entry of every key that a page lists and whose value decodes is returned.
  scan_ledger-IsIn :
      (pages : List (Result (List String))) (k : String) {raw : Raw} {e : Entry} {es : List Entry}
      → read k ≡ ok (some raw)
      → decode raw ≡ some e
      → Lists k pages
      → scan_ledger pages ≡ ok es
      → IsIn e es
  unfolding scan_ledger
  scan_ledger-IsIn [] k r d i h = absurd i
  scan_ledger-IsIn (err x ∷ pages) k r d i h = cc
  scan_ledger-IsIn (ok keys ∷ pages) k {e = e} r d (inl i) h =
      scan_keys-IsIn keys (scan_ledger pages) k r d i h
  scan_ledger-IsIn (ok keys ∷ pages) k {e = e} r d (inr i) h =
      let (fs, rest_ok, sub) = scan_keys-rest keys (scan_ledger pages) h in
      sub e (scan_ledger-IsIn pages k r d i rest_ok)
