-- ===== src/Redis/Limits/Checks.antt =====
-- Any number of purchase checks by any users, each a request of its own.
use flashsale_service.Redis.Client.Rules.{request-keeps}
use flashsale_service.Redis.Scripts.{purchase_script}
use flashsale_service.Redis.Client.{Net, request}
use flashsale_service.Redis.Cache.{atomic_purchase_check}
use flashsale_service.Redis.Keys.{
  items_sold_key, count_key, items_sold_key-ne-user_key, user_key_inj,
}
use flashsale_service.Redis.Limits.{CountsWithin, Decided, purchase_script-Decided}
use flashsale_service.Redis.Server.{Redis, IsRedis}
use flashsale_service.Prelude.{
  ◌≡◌, String, ℤ, List, pos, ◌≤ℤ◌, All, ◌∷◌, ◌=ℕ=◌, [], ◌+ℤ◌, negsuc, ◌==◌, int_laws, false, arith,
  Bool-cases, eq_iff, leb_ℤ, ◌&&◌, inl, subst, inr, sym, ◌∙◌, ◌^◌,
}
use flashsale_service.Effect.{◌>>=◌, ◌>>◌, M, pure, Result, ignore, ok, err}

pub record Check : Type 0 where
  pub user_id : String
  pub item_count : ℤ

module _ {S : Type 0} (r : Redis S) (laws : IsRedis r) (sale_id : String)
    (max_sale max_user : ℤ) where
  -- The counters of the sale and of each user are within their limits.
  pub record WithinLimits (s : S) : Type 0 where
    pub sale : CountsWithin r (items_sold_key sale_id) max_sale s
    pub user : (user_id : String) → CountsWithin r (count_key sale_id user_id) max_user s

  -- Clients run their checks one after the other, in any order; what is answered does not stop the
  -- next one.
  unfoldable pub run_checks : List Check → M (Net S) (Unit {0})
  run_checks [] = pure tt
  run_checks (c ∷ cs) =
      ignore (atomic_purchase_check r sale_id c.user_id c.item_count max_sale max_user)
      >> run_checks cs

  -- A number of items that a client may ask for: the sums that the script computes with it are exact.
  abbrev pub Countable : Check → Type 0
  Countable c =
      (pos 0 ≤ℤ c.item_count)
      × (max_sale +ℤ c.item_count ≤ℤ pos (2 ^ 53))
      × (max_user +ℤ c.item_count ≤ℤ pos (2 ^ 53))

  module _ (c : Check) (s : S) (sold bought : ℤ) (low : pos 0 ≤ℤ c.item_count) (v : WithinLimits s)
      (ls : pos 0 ≤ℤ sold) (lb : pos 0 ≤ℤ bought) (x : Result ℤ × S)
      (d : Decided r
        (items_sold_key sale_id)
        (count_key sale_id c.user_id)
        c.item_count
        max_sale
        max_user
        sold
        bought
        s
        x) where
    user_within :
        (sold +ℤ c.item_count ≤ℤ max_sale) × (bought +ℤ c.item_count ≤ℤ max_user)
        → (user_id : String) → CountsWithin r (count_key sale_id user_id) max_user x.1
    user_within within user_id = elim (Bool-cases (c.user_id == user_id)) [
      | inl same ↦
          subst (λ u. CountsWithin r (count_key sale_id u) max_user x.1)
            ((eq_iff c.user_id user_id).0 same)
            (bought +ℤ c.item_count, (d.granted within).2, omega (int_laws, low, lb), within.1)
      | inr other ↦
          let (n, h, l, u) = v.user user_id in
          (
            n,
            d.others (count_key sale_id user_id)
                  (items_sold_key-ne-user_key sale_id sale_id user_id "count")
                  (λ e. differs other (user_key_inj sale_id c.user_id user_id "count" e))
                ∙ h,
            l,
            u,
          )
    ]
      where
        differs : {user_id : String} → (c.user_id == user_id) ≡ false → c.user_id ≡ user_id → ⊥
        differs {user_id} other e = ground (arith, other, eq_iff c.user_id user_id)

    checked : WithinLimits x.1
    checked =
        elim (Bool-cases
          (leb_ℤ (sold +ℤ c.item_count) max_sale && leb_ℤ (bought +ℤ c.item_count) max_user)) [
            | inl fits' ↦ granted_within (ground (arith, fits'))
            | inr beyond ↦
                subst (λ (y : Result ℤ × S). WithinLimits y.1)
                  (sym (d.refused (λ within. ground (arith, beyond, within)))) v
          ]
      where
        granted_within :
            (sold +ℤ c.item_count ≤ℤ max_sale) × (bought +ℤ c.item_count ≤ℤ max_user)
            → WithinLimits x.1
        granted_within within = record {
          sale = (sold +ℤ c.item_count, (d.granted within).1, omega (int_laws, low, ls), within.0);
          user = user_within within;
        }

  script-WithinLimits :
      (c : Check) (s : S)
      → Countable c
      → WithinLimits s
      → WithinLimits
          (purchase_script r
            (items_sold_key sale_id)
            (count_key sale_id c.user_id)
            c.item_count
            max_sale
            max_user
            s).1
  script-WithinLimits c s low v =
      let (sold, hs, ls, us) = v.sale in
      let (bought, hb, lb, ub) = v.user c.user_id in
      checked c s sold bought low.0 v ls lb
        (purchase_script r (items_sold_key sale_id) (count_key sale_id c.user_id) c.item_count
          max_sale max_user s)
        (purchase_script-Decided r laws (items_sold_key sale_id) (count_key sale_id c.user_id)
          c.item_count max_sale max_user sold bought s
          (items_sold_key-ne-user_key sale_id sale_id c.user_id "count") hs hb (low.0, ls, lb)
          (us, ub) (low.1, low.2))

  granted_by-WithinLimits :
      (c : Check) (n : Net S)
      → Countable c
      → WithinLimits n.data_of
      → WithinLimits
          (atomic_purchase_check r sale_id c.user_id c.item_count max_sale max_user n).1.data_of
  unfolding atomic_purchase_check
  granted_by-WithinLimits c n low v =
      unchanged
        (request
          (purchase_script r (items_sold_key sale_id) (count_key sale_id c.user_id) c.item_count
            max_sale max_user)
          n)
        (request-keeps WithinLimits
          (purchase_script r (items_sold_key sale_id) (count_key sale_id c.user_id) c.item_count
            max_sale max_user)
          (λ s k. script-WithinLimits c s low k) n v)
    where
      unchanged :
          (x : Result ℤ × Net S)
          → WithinLimits x.1.data_of
          → WithinLimits
              (((λ (m : Net S). x) >>= (λ k. pure (elim k [ pos j ↦ j =ℕ= 1 | negsuc _ ↦ false ])))
                n).1.data_of
      unchanged (ok a, m) h = h
      unchanged (err e, m) h = h

  -- From counters within their limits, whatever checks are made, in whatever order, of numbers of
  -- items that are not negative and that added to either limit are 2 ^ 53 at most, while no
  -- counter expires and whatever becomes of the requests and their answers: the sale's counter and
  -- every user's counter stay within their limits.
  pub run_checks-WithinLimits :
      (cs : List Check) (n : Net S)
      → All Countable cs
      → WithinLimits n.data_of
      → WithinLimits (run_checks cs n).1.data_of
  unfolding run_checks
  run_checks-WithinLimits [] n low v = v
  run_checks-WithinLimits (c ∷ cs) n low v =
      run_checks-WithinLimits cs
        (atomic_purchase_check r sale_id c.user_id c.item_count max_sale max_user n).1 low.1
        (granted_by-WithinLimits c n low.0 v)
