-- ===== src/Service/Rules.antt =====
-- What the parts of the use case do to the store: the repository acts on it, the cache, the
-- checkout repository and the clock do not.
use flashsale_service.Effect.{Result, M, ignore, or_zero, ok, err}
use flashsale_service.Errors.{Error}
use flashsale_service.Postgres.Store.{Store}
use flashsale_service.Effect.Triple.{Triple, Post, Triple-ignore, Triple-or_zero}
use flashsale_service.Service.{World, on_store, on_rest}

module _ {C A : Type 0} where
  Post-on_store :
      (Q : A → Store → Type 0) (E : Error → Store → Type 0) (r : Result A) (s : Store) (w : World C)
      → Post Q E (r, s)
      → Post (λ a (w' : World C). Q a w'.store) (λ e w'. E e w'.store) (r, record w { store = s })
  Post-on_store Q E (ok a) s w h = h
  Post-on_store Q E (err e) s w h = h

  pub Triple-on_store :
      {P : Store → Type 0} {Q : A → Store → Type 0} {E : Error → Store → Type 0} {m : M Store A}
      → Triple P m Q E
      → Triple (λ (w : World C). P w.store) (on_store m) (λ a w. Q a w.store) (λ e w. E e w.store)
  Triple-on_store {Q} {E} {m} t = record {
    at = λ w h. Post-on_store Q E (m w.store).0 (m w.store).1 w (t.at w.store h);
  }

  Post-on_rest :
      (P : Store → Type 0) (r : Result A) (c : C) (w : World C)
      → P w.store
      → Post (λ _ (w' : World C). P w'.store) (λ _ w'. P w'.store) (r, record w { rest = c })
  Post-on_rest P (ok a) c w h = h
  Post-on_rest P (err e) c w h = h

  pub Triple-on_rest :
      (P : Store → Type 0) (m : M C A)
      → Triple (λ (w : World C). P w.store) (on_rest m) (λ _ w. P w.store) (λ _ w. P w.store)
  Triple-on_rest P m = record { at = λ w h. Post-on_rest P (m w.rest).0 (m w.rest).1 w h }

module _ {C : Type 0} (P : Store → Type 0) where
  pub ignore_rest :
      {A : Type 0} {E : Error → World C → Type 0} (m : M C A)
      → Triple (λ (w : World C). P w.store) (ignore (on_rest m)) (λ _ w. P w.store) E
  ignore_rest m = Triple-ignore (λ w. P w.store) (on_rest m) (Triple-on_rest P m)

  pub or_zero_rest :
      {A : Type 0} {E : Error → World C → Type 0} (d : A) (m : M C A)
      → Triple (λ (w : World C). P w.store) (or_zero d (on_rest m)) (λ _ w. P w.store) E
  or_zero_rest d m = Triple-or_zero d (on_rest m) (Triple-on_rest P m)
