-- ===== src/Redis/Limits.antt =====
-- The limits that the scripts keep, each script being one step of the server.
pub mod Checks
use flashsale_service.Redis.Client.Rules.{asked-bind}
use flashsale_service.Redis.Scripts.{
  purchase_script, add_to, count_of, decide_purchase, lua_counter,
}
use flashsale_service.Redis.Server.{Redis, IsRedis, counter, Fits, Exact}
use flashsale_service.Prelude.{
  ◌≡◌, refl, String, ℤ, ◌≢◌, pos, ◌+ℤ◌, ◌≤ℤ◌, Bool-cases, ltb_ℤ, inl, int_laws, inr, ◌-ℤ◌, ◌∙◌,
  subst, sym, arith, negsuc, +ℤ_parts, -ℤ_parts, ◌^◌, ap,
}
use flashsale_service.Effect.{◌>>=◌, ◌>>◌, ok, Result, M, pure, err}

-- A key counts `n`, a number between 0 and `max`.
abbrev pub CountsWithin : {S : Type 0} → Redis S → String → ℤ → S → Type 0
CountsWithin r key max s = (n : ℤ) × (counter r key s ≡ ok n) × (pos 0 ≤ℤ n) × (n ≤ℤ max)

Exact-between : (a m : ℤ) → pos 0 ≤ℤ a → a ≤ℤ m → m ≤ℤ pos (2 ^ 53) → Exact a
Exact-between (pos a) (pos m) low high small = omega (arith, high, small)
Exact-between (pos a) (negsuc m) low high small = absurd (omega (arith, high))
Exact-between (negsuc a) m low high small = absurd (omega (arith, low))

pub Exact-Fits : (a : ℤ) → Exact a → Fits a
Exact-Fits a h = omega (arith, h)

module _ {S : Type 0} (r : Redis S) where
  -- What a purchase check decides, of `sold` and `bought` before it.
  pub record Decided (sale_key user_key : String) (n max_sale max_user sold bought : ℤ) (s : S)
      (x : Result ℤ × S) : Type 0 where
    pub granted :
        (sold +ℤ n ≤ℤ max_sale) × (bought +ℤ n ≤ℤ max_user)
        → (x.0 ≡ ok (pos 1))
          × (counter r sale_key x.1 ≡ ok (sold +ℤ n))
          × (counter r user_key x.1 ≡ ok (bought +ℤ n))
    pub refused : ((sold +ℤ n ≤ℤ max_sale) × (bought +ℤ n ≤ℤ max_user) → ⊥) → x ≡ (ok (pos 0), s)
    pub others : (j : String) → sale_key ≢ j → user_key ≢ j → counter r j x.1 ≡ counter r j s

module _ {S : Type 0} (r : Redis S) (laws : IsRedis r) where
  pub counter-incr_by_other :
      (k j : String) (d : ℤ) (s : S) → k ≢ j → counter r j (r.incr_by k d s).1 ≡ counter r j s
  unfolding counter
  counter-incr_by_other k j d s ne = rw (laws.get-incr_by_other k j d s ne) refl

  -- `INCRBY` as the scripts call it.
  pub added :
      {B : Type 0} (k : String) (d n : ℤ) (s : S) (rest : M S B)
      → counter r k s ≡ ok n
      → Exact d
      → Exact (n +ℤ d)
      → (add_to r k d >> rest) s ≡ rest (r.incr_by k d s).1
  added k d n s rest h exact sum =
      rw (laws.lua_text-Exact d exact, laws.atoi-itoa d)
        (go (r.incr_by k d s) (laws.incr_by-counter k d n s h (Exact-Fits (n +ℤ d) sum)).0)
    where
      go :
          (x : Result ℤ × S)
          → x.0 ≡ ok (n +ℤ d)
          → ((λ (s : S). x) >>= (λ _. pure tt) >>= (λ _. rest)) s ≡ rest x.1
      go (ok _, s') e = refl
      go (err _, s') e = cc

  pub lua_counter-Exact :
      (k : String) (n : ℤ) (s : S) → counter r k s ≡ ok n → Exact n → lua_counter r k s ≡ ok n
  lua_counter-Exact k n s h exact = rw h (ap ok (laws.lua_number-Exact n exact))

  module _ (sale_key user_key : String) (n max_sale max_user sold bought : ℤ) (s : S)
      (ne : sale_key ≢ user_key) (hs : counter r sale_key s ≡ ok sold)
      (hb : counter r user_key s ≡ ok bought)
      (low : (pos 0 ≤ℤ n) × (pos 0 ≤ℤ sold) × (pos 0 ≤ℤ bought))
      (under : (sold ≤ℤ max_sale) × (bought ≤ℤ max_user))
      (small : (max_sale +ℤ n ≤ℤ pos (2 ^ 53)) × (max_user +ℤ n ≤ℤ pos (2 ^ 53))) where
    n_Exact : Exact n
    n_Exact =
        Exact-between n (max_sale +ℤ n) low.0 (omega (int_laws, low, under, +ℤ_parts max_sale n))
          small.0

    sold_Exact : Exact sold
    sold_Exact =
        Exact-between sold (max_sale +ℤ n) low.1 (omega (int_laws, low, under, +ℤ_parts max_sale n))
          small.0

    bought_Exact : Exact bought
    bought_Exact =
        Exact-between bought (max_user +ℤ n) low.2
          (omega (int_laws, low, under, +ℤ_parts max_user n)) small.1

    sale_Exact : Exact max_sale
    sale_Exact =
        Exact-between max_sale (max_sale +ℤ n) (omega (int_laws, low, under))
          (omega (int_laws, low, under, +ℤ_parts max_sale n)) small.0

    user_Exact : Exact max_user
    user_Exact =
        Exact-between max_user (max_user +ℤ n) (omega (int_laws, low, under))
          (omega (int_laws, low, under, +ℤ_parts max_user n)) small.1

    sold_sum : Exact (sold +ℤ n)
    sold_sum =
        Exact-between (sold +ℤ n) (max_sale +ℤ n) (omega (int_laws, low))
          (omega (int_laws, under, +ℤ_parts sold n, +ℤ_parts max_sale n)) small.0

    bought_sum : Exact (bought +ℤ n)
    bought_sum =
        Exact-between (bought +ℤ n) (max_user +ℤ n) (omega (int_laws, low))
          (omega (int_laws, under, +ℤ_parts bought n, +ℤ_parts max_user n)) small.1

    user_left : Exact (max_user -ℤ bought)
    user_left =
        Exact-between (max_user -ℤ bought) (max_user +ℤ n)
          (omega (int_laws, under, -ℤ_parts max_user bought))
          (omega (int_laws, low, under, -ℤ_parts max_user bought, +ℤ_parts max_user n)) small.1

    abbrev after_sale : S
    after_sale = (r.incr_by sale_key n s).1

    both-added :
        sold +ℤ n ≤ℤ max_sale
        → bought +ℤ n ≤ℤ max_user
        → Decided r sale_key user_key n max_sale max_user sold bought s
            ((add_to r sale_key n >> (add_to r user_key n >> pure (pos 1))) s)
    both-added h k =
        let kept = counter-incr_by_other sale_key user_key n s ne ∙ hb in
        let user_done =
          laws.incr_by-counter user_key n bought after_sale kept
            (Exact-Fits (bought +ℤ n) bought_sum) in
        rw (added sale_key n sold s (add_to r user_key n >> pure (pos 1)) hs n_Exact sold_sum) (
          rw (added user_key n bought after_sale (pure (pos 1)) kept n_Exact bought_sum) (record {
            granted = λ _. (
              refl,
              counter-incr_by_other user_key sale_key n after_sale (λ e. ne (sym e))
                  ∙ (laws.incr_by-counter sale_key n sold s hs (Exact-Fits (sold +ℤ n) sold_sum)).1,
              user_done.1,
            );
            refused = λ no. absurd (no (h, k));
            others = λ j ns nu.
                counter-incr_by_other user_key j n after_sale nu
                ∙ counter-incr_by_other sale_key j n s ns;
          }))

    decide_purchase-Decided :
        Decided r sale_key user_key n max_sale max_user sold bought s
          (decide_purchase r sale_key user_key n max_sale max_user sold bought s)
    unfolding decide_purchase
    decide_purchase-Decided =
        rw
          (
            laws.lua_number-Exact (sold +ℤ n) sold_sum,
            laws.lua_number-Exact (max_user -ℤ bought) user_left,
          )
          (elim (Bool-cases (ltb_ℤ max_sale (sold +ℤ n))) [
            | inl full ↦ rw full (record {
              granted = λ within. absurd (
                  ground (
                    arith,
                    full,
                    within,
                    +ℤ_parts sold n,
                    +ℤ_parts bought n,
                    -ℤ_parts max_user bought,
                  ));
              refused = λ _. refl;
              others = λ j ns nu. refl;
            })
            | inr room ↦ rw room (elim (Bool-cases (ltb_ℤ (max_user -ℤ bought) n)) [
              | inl full ↦ rw full (record {
                granted = λ within. absurd (
                    ground (
                      arith,
                      full,
                      within,
                      +ℤ_parts sold n,
                      +ℤ_parts bought n,
                      -ℤ_parts max_user bought,
                    ));
                refused = λ _. refl;
                others = λ j ns nu. refl;
              })
              | inr room' ↦ rw room' (
                  both-added (ground (arith, room))
                    (ground (arith, room', +ℤ_parts bought n, -ℤ_parts max_user bought)))
            ])
          ])

    pub purchase_script-Decided :
        Decided r sale_key user_key n max_sale max_user sold bought s
          (purchase_script r sale_key user_key n max_sale max_user s)
    unfolding purchase_script
    purchase_script-Decided =
        rw
          (
            laws.lua_number-Exact n n_Exact,
            laws.lua_number-Exact max_sale sale_Exact,
            laws.lua_number-Exact max_user user_Exact,
          )
          (subst (Decided r sale_key user_key n max_sale max_user sold bought s)
            (sym (
              asked-bind (lua_counter r sale_key)
                (λ x.
                  count_of r user_key >>= decide_purchase r sale_key user_key n max_sale max_user x)
                s sold (lua_counter-Exact sale_key sold s hs sold_Exact)
              ∙ asked-bind (lua_counter r user_key)
                  (decide_purchase r sale_key user_key n max_sale max_user sold) s bought
                  (lua_counter-Exact user_key bought s hb bought_Exact)))
            decide_purchase-Decided)
