-- ===== src/Grn/Reversal/Twice.antt =====
-- src/modules/grn/services/grn-reversal.service.ts: a reversal, a second one, and two sessions that
-- reverse the same receipt.
use radha_backend.Prelude.{
  ℕ, String, ◌≡◌, refl, sym, subst, ap, ◌∙◌, true, false, not, Option, none, some, List, [], ◌∷◌,
  arith, inl, inr, Result, Result-cases, ok, err, ◌>>=◌, >>=-ok_then, ok->>=, err->>=, throw_if,
  throw_if-ok, business, business_rule_violation, find, select, length,
}
use radha_backend.Prelude.Int.{◌+ℤ◌, int_laws, parts_of_eq}
use radha_backend.Prelude.Table.{update_where}
use radha_backend.Prelude.Table.Laws.{
  find-holds, find-update_where, find-update_none, map_option, patch,
}
use radha_backend.Inventory.Types.{Tables, Fresh}
use radha_backend.Inventory.Stock.Sound.{IsSound}
use radha_backend.Inventory.Stock.Adjusting.{quantity_at}
use radha_backend.Grn.{
  GrnStatus, draft, pending_review, posted, cancelled, reversed, Header, GrnTables, same_grn_status,
  is_tenant_header, find_header, header_guard, update_header_guarded, find_by_grn,
}
use radha_backend.Grn.Reversal.{
  ReverseResult, Reverted, none_reverted, to_reversed, changed_header, existing_header, reversible,
  revert_lines, finish_reversal, reverse_in_transaction, reverse,
}
use radha_backend.Grn.Reversal.Stock.{TakenBack, taken_back, has_product, revert_lines-TakenBack}

posted_only : (s : GrnStatus) → not (same_grn_status s posted) ≡ false → s ≡ posted
unfolding same_grn_status
posted_only draft h = cc
posted_only pending_review h = cc
posted_only posted h = refl
posted_only cancelled h = cc
posted_only reversed h = cc

existing_header-ok : (o : Option Header) {h : Header} → existing_header o ≡ ok h → o ≡ some h
existing_header-ok none e = cc
existing_header-ok (some d) e = ground arith

changed_header-ok : (o : Option Header) {h : Header} → changed_header o ≡ ok h → o ≡ some h
changed_header-ok none e = cc
changed_header-ok (some d) e = ground arith

-- The inversion of a loop that commits and then a step that may fail.
committed-ok :
    {A B : Type 0} (run : Tables × Result A) (next : A → Result B) (inv' : Tables) {b : B}
    → ◌≡◌ {A = Tables × Result B} (run.0, run.1 >>= next) (inv', ok b)
    → (a : A) × (run ≡ (inv', ok a)) × (next a ≡ ok b)
committed-ok (inv, err x) next inv' {b} e = cc
committed-ok (inv, ok a) next inv' {b} e =
    let tables : inv ≡ inv' = ground arith in (a, ap (λ u. (u, ok a)) tables, ground arith)

module _ (fr : ℕ → Fresh) (key_text : ℕ → String) (tenant user : ℕ) where
  -- What the tests of a reversal that passes them say.
  reversible-ok :
      (grn_id : ℕ) (t : GrnTables) {h : Header}
      → reversible fr key_text tenant user grn_id t ≡ ok h
      → (find_header grn_id tenant t.headers ≡ some h) × (h.status ≡ posted)
  reversible-ok grn_id t {h} e =
      >>=-ok_then (existing_header (find_header grn_id tenant t.headers)) _ e λ g there e1.
        >>=-ok_then
          (throw_if (same_grn_status g.status reversed) (business business_rule_violation)) _ e1
          λ _ first e2.
            >>=-ok_then
              (throw_if (not (same_grn_status g.status posted)) (business business_rule_violation))
              _ e2
              λ _ second e3.
                let row : g ≡ h = ground arith in
                (
                  existing_header-ok (find_header grn_id tenant t.headers) there
                      ∙ ap (λ (x : Header). some x) row,
                  ap (λ (x : Header). x.status) (sym row)
                      ∙ posted_only g.status (throw_if-ok _ _ second),
                )

  -- What the last steps of a reversal leave of the headers.
  finish_reversal-headers :
      (now grn_id : ℕ) (reason : String) (t : GrnTables) (k : Reverted) {t' : GrnTables}
      {r : ReverseResult}
      → finish_reversal fr key_text tenant user now grn_id reason t k ≡ ok (t', r)
      → (t'.headers
          ≡ update_where
              (header_guard grn_id (posted ∷ []))
              (to_reversed now user reason)
              t.headers)
        × (t'.items ≡ t.items)
        × (r.inventory_reverted ≡ k.inventory)
  unfolding finish_reversal update_header_guarded
  finish_reversal-headers now grn_id reason t k {t'} {r} e =
      >>=-ok_then
        (changed_header (
          map_option (to_reversed now user reason)
            (find (header_guard grn_id (posted ∷ [])) t.headers)))
        _ e λ h updated done. (ground arith, ground arith, ground arith)

  -- The guard lets no receipt through that a reversal has changed.
  reversed-guarded :
      (now grn_id : ℕ) (reason : String) (headers : List Header)
      → find
          (header_guard grn_id (posted ∷ []))
          (update_where (header_guard grn_id (posted ∷ [])) (to_reversed now user reason) headers)
        ≡ none
  unfolding same_grn_status
  reversed-guarded now grn_id reason headers =
      find-update_none (header_guard grn_id (posted ∷ [])) (to_reversed now user reason) headers
        (λ h. ground arith)

  reverse_in_transaction-steps :
      (now grn_id : ℕ) (reason : String) (t : GrnTables) (inv inv' : Tables) {t' : GrnTables}
      {r : ReverseResult}
      → reverse_in_transaction fr key_text tenant user now grn_id reason t inv ≡ (inv', ok (t', r))
      → (k : Reverted) × (revert_lines fr key_text tenant user grn_id
            (find_by_grn grn_id t.items)
            inv
            none_reverted
          ≡ (inv', ok k))
        × (finish_reversal fr key_text tenant user now grn_id reason t k ≡ ok (t', r))
  unfolding reverse_in_transaction
  reverse_in_transaction-steps now grn_id reason t inv inv' e =
      committed-ok
        (revert_lines fr key_text tenant user grn_id (find_by_grn grn_id t.items) inv none_reverted)
        (finish_reversal fr key_text tenant user now grn_id reason t) inv' e

  reverse-steps :
      (now grn_id : ℕ) (reason : String) (t : GrnTables) (inv inv' : Tables) {t' : GrnTables}
      {r : ReverseResult}
      → reverse fr key_text tenant user now grn_id reason t inv ≡ (inv', ok (t', r))
      → (h : Header) × (find_header grn_id tenant t.headers ≡ some h)
        × (h.status ≡ posted)
        × (reverse_in_transaction fr key_text tenant user now grn_id reason t inv
            ≡ (inv', ok (t', r)))
  unfolding reverse find_header
  reverse-steps now grn_id reason t inv inv' {t'} {r} e =
      elim (Result-cases (reversible fr key_text tenant user grn_id t)) [
        | inl (x, refused) ↦ let stopped = rw (reverse, refused) at e in cc
        | inr (h, allowed) ↦
            let (found, status) = reversible-ok grn_id t allowed in
            let holds = find-holds (is_tenant_header grn_id tenant) t.headers found in
            let this : h.id ≡ grn_id = ground (arith, holds) in
            let ran = rw (reverse, allowed) at e in
            (
              h,
              found,
              status,
              subst
                  (λ n.
                    reverse_in_transaction fr key_text tenant user now n reason t inv
                    ≡ (inv', ok (t', r)))
                  this ran,
            )
      ]

  -- On sound stock, a reversal that succeeds found the tenant's receipt posted, and leaves it
  -- reversed. It takes out of the stock of each product and store the quantities of the receipt's
  -- lines there, no more and no less, and leaves the stock sound; the result counts the lines that
  -- have a product.
  pub reverse-TakenBack :
      (now grn_id : ℕ) (reason : String) (t : GrnTables) (inv : Tables) {inv' : Tables}
      {t' : GrnTables} {r : ReverseResult}
      → IsSound inv
      → reverse fr key_text tenant user now grn_id reason t inv ≡ (inv', ok (t', r))
      → (h h' : Header) × (find_header grn_id tenant t.headers ≡ some h)
        × (h.status ≡ posted)
        × (find_header grn_id tenant t'.headers ≡ some h')
        × (h'.status ≡ reversed)
        × TakenBack (find_by_grn grn_id t.items) inv inv'
        × (r.inventory_reverted ≡ length (select has_product (find_by_grn grn_id t.items)))
  unfolding find_header same_grn_status
  reverse-TakenBack now grn_id reason t inv {inv'} {t'} {r} sound e =
      let (h, found, status, ran) = reverse-steps now grn_id reason t inv inv' e in
      let (k, loop, finished) = reverse_in_transaction-steps now grn_id reason t inv inv' ran in
      let back =
        revert_lines-TakenBack fr key_text tenant user grn_id (find_by_grn grn_id t.items) inv inv'
          none_reverted k sound loop in
      let after = finish_reversal-headers now grn_id reason t k finished in
      let holds = find-holds (is_tenant_header grn_id tenant) t.headers found in
      let passes : header_guard grn_id (posted ∷ []) h ≡ true = ground (arith, holds, status) in
      let write = to_reversed now user reason in
      (
        h,
        write h,
        found,
        status,
        rw after.0 (
            find-update_where (is_tenant_header grn_id tenant) (header_guard grn_id (posted ∷ []))
              write t.headers (λ x. refl)
            ∙ ap (map_option (patch (header_guard grn_id (posted ∷ [])) write)) found
            ∙ rw passes refl),
        refl,
        back.0,
        omega (arith, after.2, back.1),
      )

  -- After a reversal that succeeded on sound stock, every further one of the same receipt is refused
  -- and leaves the stock, whatever it is by then, as it is.
  pub reverse-once :
      (now now' grn_id : ℕ) (reason reason' : String) (t : GrnTables) (inv later : Tables)
      {inv' : Tables} {t' : GrnTables} {r : ReverseResult}
      → IsSound inv
      → reverse fr key_text tenant user now grn_id reason t inv ≡ (inv', ok (t', r))
      → reverse fr key_text tenant user now' grn_id reason' t' later
        ≡ (later, err (business business_rule_violation))
  unfolding reverse same_grn_status
  reverse-once now now' grn_id reason reason' t inv later {inv'} {t'} sound e =
      let (h, h', found, status, found', status', back, count) =
        reverse-TakenBack now grn_id reason t inv sound e in
      let refused : reversible fr key_text tenant user grn_id t'
          ≡ err (business business_rule_violation) =
        ok->>= (existing_header (find_header grn_id tenant t'.headers)) _
          (ap existing_header found')
          (err->>=
            (throw_if (same_grn_status h'.status reversed) (business business_rule_violation)) _
            (ap (λ s. throw_if (same_grn_status s reversed) (business business_rule_violation))
              status')) in
      rw (reverse, refused) refl

  -- Two sessions that both read the receipt while it was posted: on sound stock, after the
  -- transaction of one has reversed it, the other's, where its movements go through, fails as it
  -- should, but the quantities of the lines have been taken out of the stock a second time.
  pub reverse_in_transaction-twice :
      (now now' grn_id : ℕ) (reason reason' : String) (t : GrnTables) (inv : Tables)
      {inv' inv'' : Tables} {t' : GrnTables} {r : ReverseResult} {k : Reverted}
      → IsSound inv
      → reverse_in_transaction fr key_text tenant user now grn_id reason t inv ≡ (inv', ok (t', r))
      → revert_lines fr key_text tenant user grn_id (find_by_grn grn_id t.items) inv' none_reverted
        ≡ (inv'', ok k)
      → (reverse_in_transaction fr key_text tenant user now' grn_id reason' t' inv'
          ≡ (inv'', err (business business_rule_violation)))
        × ((p s : ℕ)
            → quantity_at p s inv''
                +ℤ taken_back p s (find_by_grn grn_id t.items)
                +ℤ taken_back p s (find_by_grn grn_id t.items)
              ≡ quantity_at p s inv)
  unfolding reverse_in_transaction finish_reversal update_header_guarded
  reverse_in_transaction-twice now now' grn_id reason reason' t inv {inv'} {inv''} {t'} {r} {k}
        sound e again =
      let ls = find_by_grn grn_id t.items in
      let (k1, loop, finished) = reverse_in_transaction-steps now grn_id reason t inv inv' e in
      let (first, n) =
        revert_lines-TakenBack fr key_text tenant user grn_id ls inv inv' none_reverted k1 sound
          loop in
      let (second, m) =
        revert_lines-TakenBack fr key_text tenant user grn_id ls inv' inv'' none_reverted k
          first.sound again in
      let after = finish_reversal-headers now grn_id reason t k1 finished in
      (
        rw (after.1, again, after.0, reversed-guarded now grn_id reason t.headers) refl,
        λ p s. omega (int_laws, parts_of_eq (first.taken p s), parts_of_eq (second.taken p s)),
      )
