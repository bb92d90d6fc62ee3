-- ===== src/Postgres/PurchaseRepository/Listing.antt =====
-- The lists and the count of purchases agree, and the lists are in order.
use flashsale_service.Prelude.{
  Bool, ℕ, List, ◌≡◌, ◌∷◌, false, ◌&&◌, if◌then◌else◌, All, true, arith, suc, Bool-cases, [], inl,
  refl, inr, String, ◌==◌, leb, ap, ◌∙◌, sym,
}
use flashsale_service.Effect.{ok}
use flashsale_service.Postgres.Store.{answered, Store, Purchase, next_answer, run, on_pool}
use flashsale_service.Postgres.PurchaseRepository.{
  get_purchases_by_sale_id, get_purchases_by_user_id, get_user_purchase_count, select_purchases,
  insert_purchased, count_purchases,
}

-- The purchases that a test holds of.
unfoldable pub count_where : (Purchase → Bool) → List Purchase → ℕ
count_where wanted [] = 0
count_where wanted (p ∷ ps) =
    let rest = count_where wanted ps in if wanted p then suc rest else rest

-- No purchase has to go before an earlier one of the list.
abbrev pub InOrder : (ℕ → ℕ → Bool) → List Purchase → Type 0
InOrder goes_first [] = Unit
InOrder goes_first (p ∷ ps) =
    All (λ q. goes_first p.purchased_at q.purchased_at ≡ true) ps × InOrder goes_first ps

module _ (goes_first : ℕ → ℕ → Bool)
    (total : (a b : ℕ) → goes_first a b ≡ false → goes_first b a ≡ true)
    (trans : (a b c : ℕ)
      → goes_first a b ≡ true
      → goes_first b c ≡ true
      → goes_first a c ≡ true) where
  insert-All :
      (P : Purchase → Type 0) (p : Purchase) (ps : List Purchase)
      → P p
      → All P ps
      → All P (insert_purchased goes_first p ps)
  unfolding insert_purchased
  insert-All P p [] h k = (h, tt)
  insert-All P p (q ∷ qs) h k = elim (Bool-cases (goes_first p.purchased_at q.purchased_at)) [
    | inl first ↦ rw first (h, k)
    | inr later ↦ rw later (k.0, insert-All P p qs h k.1)
  ]

  after_first :
      (p q : Purchase) (qs : List Purchase)
      → goes_first p.purchased_at q.purchased_at ≡ true
      → All (λ x. goes_first q.purchased_at x.purchased_at ≡ true) qs
      → All (λ x. goes_first p.purchased_at x.purchased_at ≡ true) qs
  after_first p q [] h k = tt
  after_first p q (x ∷ xs) h k =
      (trans p.purchased_at q.purchased_at x.purchased_at h k.0, after_first p q xs h k.1)

  insert-InOrder :
      (p : Purchase) (ps : List Purchase)
      → InOrder goes_first ps
      → InOrder goes_first (insert_purchased goes_first p ps)
  unfolding insert_purchased
  insert-InOrder p [] h = (tt, tt)
  insert-InOrder p (q ∷ qs) h = elim (Bool-cases (goes_first p.purchased_at q.purchased_at)) [
    | inl first ↦ rw first ((first, after_first p q qs first h.0), h)
    | inr later ↦ rw later (
      insert-All (λ x. goes_first q.purchased_at x.purchased_at ≡ true) p qs
          (total p.purchased_at q.purchased_at later) h.0,
      insert-InOrder p qs h.1,
    )
  ]

  select-InOrder :
      (wanted : Purchase → Bool) (ps : List Purchase)
      → InOrder goes_first (select_purchases goes_first wanted ps)
  unfolding select_purchases
  select-InOrder wanted [] = tt
  select-InOrder wanted (p ∷ ps) = elim (Bool-cases (wanted p)) [
    | inl taken ↦
        rw taken
          (insert-InOrder p (select_purchases goes_first wanted ps) (select-InOrder wanted ps))
    | inr left ↦ rw left (select-InOrder wanted ps)
  ]

module _ (goes_first : ℕ → ℕ → Bool) where
  count-insert :
      (wanted : Purchase → Bool) (p : Purchase) (ps : List Purchase)
      → count_where wanted (insert_purchased goes_first p ps) ≡ count_where wanted (p ∷ ps)
  unfolding insert_purchased count_where
  count-insert wanted p [] = refl
  count-insert wanted p (q ∷ qs) = ground (arith, count-insert wanted p qs)

  count-select :
      (wanted other : Purchase → Bool) (ps : List Purchase)
      → count_where other (select_purchases goes_first wanted ps)
        ≡ count_where (λ p. wanted p && other p) ps
  unfolding select_purchases count_where
  count-select wanted other [] = refl
  count-select wanted other (p ∷ ps) = ground (
    arith,
    count-select wanted other ps,
    count-insert other p (select_purchases goes_first wanted ps),
  )

count_purchases-where :
    (sale_id user_id : String) (ps : List Purchase)
    → (count_purchases sale_id user_id ps
        ≡ count_where (λ p. p.sale_id == sale_id && p.user_id == user_id) ps)
      × (count_purchases sale_id user_id ps
          ≡ count_where (λ p. p.user_id == user_id && p.sale_id == sale_id) ps)
unfolding count_purchases count_where
count_purchases-where sale_id user_id [] = (refl, refl)
count_purchases-where sale_id user_id (p ∷ ps) =
    let rest = count_purchases-where sale_id user_id ps in
    (ground (arith, rest.0), ground (arith, rest.1))

module _ (sale_id user_id : String) (s : Store) (up : next_answer s ≡ answered) where
  abbrev of_sale : List Purchase
  of_sale = select_purchases leb (λ p. p.sale_id == sale_id) s.tables.purchases

  abbrev of_user : List Purchase
  of_user = select_purchases (λ a b. leb b a) (λ p. p.user_id == user_id) s.tables.purchases

  -- Where the server answers: the number of a user's purchases in a sale is the number of that
  -- user's purchases in the list of the sale, and of that sale's in the list of the user; the list
  -- of the sale begins with the earliest purchase and that of the user with the latest.
  pub purchases-agree :
      (by_sale by_user : List Purchase) × ((get_purchases_by_sale_id sale_id s).0 ≡ ok by_sale)
      × ((get_purchases_by_user_id user_id s).0 ≡ ok by_user)
      × ((get_user_purchase_count sale_id user_id s).0
          ≡ ok (count_where (λ p. p.user_id == user_id) by_sale))
      × ((get_user_purchase_count sale_id user_id s).0
          ≡ ok (count_where (λ p. p.sale_id == sale_id) by_user))
      × InOrder leb by_sale
      × InOrder (λ a b. leb b a) by_user
  unfolding get_purchases_by_sale_id get_purchases_by_user_id get_user_purchase_count run on_pool
  purchases-agree =
      let counted = count_purchases-where sale_id user_id s.tables.purchases in
      (
        of_sale,
        of_user,
        rw up refl,
        rw up refl,
        rw up (
            ap ok (
              counted.0
              ∙ sym (
                  count-select leb (λ p. p.sale_id == sale_id) (λ p. p.user_id == user_id)
                    s.tables.purchases))),
        rw up (
            ap ok (
              counted.1
              ∙ sym (
                  count-select (λ a b. leb b a) (λ p. p.user_id == user_id)
                    (λ p. p.sale_id == sale_id) s.tables.purchases))),
        select-InOrder leb (λ a b h. ground arith) (λ a b c h k. ground arith)
            (λ p. p.sale_id == sale_id) s.tables.purchases,
        select-InOrder (λ a b. leb b a) (λ a b h. ground arith) (λ a b c h k. ground arith)
            (λ p. p.user_id == user_id) s.tables.purchases,
      )
