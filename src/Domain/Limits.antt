-- ===== src/Domain/Limits.antt =====
-- internal/domain/user/limits.go.
use flashsale_service.Prelude.{
  String, ℤ, pos, ◌+ℤ◌, leb_ℤ, Bool, if◌then◌else◌, List, [], ◌∷◌, ◌≤ℤ◌, arith,
}
use flashsale_service.Errors.{message}
use flashsale_service.Effect.{Result, ok, err}

pub record Limits : Type 0 where
  pub user_id : String
  pub sale_id : String
  pub max_items_per_user : ℤ
  pub current_item_count : ℤ

unfoldable pub new_limits : String → String → ℤ → Limits
new_limits user_id sale_id max_items = record {
  user_id = user_id;
  sale_id = sale_id;
  max_items_per_user = max_items;
  current_item_count = pos 0;
}

unfoldable pub can_add_items : Limits → ℤ → Bool
can_add_items l count = leb_ℤ (l.current_item_count +ℤ count) l.max_items_per_user

unfoldable pub increment_item_count : Limits → Limits
increment_item_count l = record l { current_item_count = l.current_item_count +ℤ pos 1 }

unfoldable pub add_items : Limits → ℤ → Result Limits
unfolding can_add_items
add_items l count =
    if can_add_items l count
    then ok (record l { current_item_count = l.current_item_count +ℤ count })
    else err (message "user has reached maximum items limit")

abbrev pub or_keep : Limits → Result Limits → Limits
or_keep l (ok l') = l'
or_keep l (err _) = l

-- A caller that adds batch after batch, and goes on after a refusal.
unfoldable pub add_batches : Limits → List ℤ → Limits
add_batches l [] = l
add_batches l (n ∷ ns) = add_batches (or_keep l (add_items l n)) ns

abbrev pub WithinLimit : Limits → Type 0
WithinLimit l = l.current_item_count ≤ℤ l.max_items_per_user

add_items-WithinLimit :
    (l : Limits) (n : ℤ) → WithinLimit l → WithinLimit (or_keep l (add_items l n))
unfolding add_items
add_items-WithinLimit l n h = ground arith

-- Whatever batches are added, a user's count never passes the user's maximum.
pub add_batches-WithinLimit :
    (l : Limits) (ns : List ℤ) → WithinLimit l → WithinLimit (add_batches l ns)
unfolding add_batches
add_batches-WithinLimit l [] h = h
add_batches-WithinLimit l (n ∷ ns) h =
    add_batches-WithinLimit (or_keep l (add_items l n)) ns (add_items-WithinLimit l n h)
