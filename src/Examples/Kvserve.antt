-- ===== src/Examples/Kvserve.antt =====
-- Requests to the server of key-value files; here a text that starts with a brace is valid JSON.
use cnimbus.Common.{Bool, [], false, inl, ok, refl, true, ◌==◌, ◌↔◌, ◌∷◌, ◌≡◌}
use cnimbus.Common.Text.{Text, codes, eqt}
use cnimbus.Kvserve.{
  IsAuthorized, contents, handle, handle-served, is_refused, missing, served, start, start-handle,
  unauthorized,
}

abbrev starts_with_brace : Text → Bool
starts_with_brace [] = false
starts_with_brace (c ∷ text) = c == 123

handle-served_example :
    (handle starts_with_brace (codes "s3cret") (contents (codes "{}")) (codes "Bearer s3cret")
      ≡ served (codes "{}"))
    ↔ (IsAuthorized (codes "s3cret") (codes "Bearer s3cret")
        × (contents (codes "{}") ≡ contents (codes "{}"))
        × (starts_with_brace (codes "{}") ≡ true))
handle-served_example =
    handle-served starts_with_brace (codes "s3cret") (contents (codes "{}")) (codes "Bearer s3cret")
      (codes "{}")

served_small :
    handle starts_with_brace (codes "s3cret") (contents (codes "{}")) (codes "Bearer s3cret")
    ≡ served (codes "{}")
unfolding handle is_refused eqt
served_small = refl

unauthorized_small :
    handle starts_with_brace (codes "s3cret") (contents (codes "{}")) (codes "Bearer s3cre")
    ≡ unauthorized
unfolding handle is_refused eqt
unauthorized_small = refl

started_small : start starts_with_brace [] [] missing ≡ ok (contents (codes "{}\n"))
unfolding start eqt
started_small = refl

start-handle_example :
    (text : Text) × (handle starts_with_brace [] (contents (codes "{}\n")) [] ≡ served text)
start-handle_example =
    start-handle starts_with_brace [] [] [] [] missing (contents (codes "{}\n")) refl (λ e. cc)
      started_small (inl refl)
