-- ===== src/Effect/Triple.antt =====
-- Pre- and postconditions of actions, one rule for each way to build an action. A call that
-- returns has `Q`, one that fails has `E`: an error is an outcome with a postcondition.
use flashsale_service.Prelude.{◌≡◌, Bool, true, false, refl}
use flashsale_service.Errors.{Error}
use flashsale_service.Effect.{
  Result, ok, err, M, ◌>>=◌, ◌>>◌, attempt, or_zero, ignore, map_err, guard_not,
}

abbrev pub Post : {W A : Type 0} → (A → W → Type 0) → (Error → W → Type 0) → Result A × W → Type 0
Post Q E (ok a, w) = Q a w
Post Q E (err e, w) = E e w

pub record Triple {W A : Type 0} (P : W → Type 0) (m : M W A) (Q : A → W → Type 0)
    (E : Error → W → Type 0) : Type 0 where
  pub at : (w : W) → P w → Post Q E (m w)

module _ {W A : Type 0} where
  Post-map :
      {Q Q' : A → W → Type 0} {E E' : Error → W → Type 0} (r : Result A × W)
      → ((a : A) (w : W) → Q a w → Q' a w)
      → ((e : Error) (w : W) → E e w → E' e w)
      → Post Q E r
      → Post Q' E' r
  Post-map (ok a, w) f g h = f a w h
  Post-map (err e, w) f g h = g e w h

  pub weaken :
      {P P' : W → Type 0} {m : M W A} {Q Q' : A → W → Type 0} {E E' : Error → W → Type 0}
      → ((w : W) → P' w → P w)
      → ((a : A) (w : W) → Q a w → Q' a w)
      → ((e : Error) (w : W) → E e w → E' e w)
      → Triple P m Q E
      → Triple P' m Q' E'
  weaken {m} pre f g t = record { at = λ w h. Post-map (m w) f g (t.at w (pre w h)) }

  -- A fact that does not mention the world stays.
  pub Triple-frame :
      {P : W → Type 0} {m : M W A} {Q : A → W → Type 0} {E : Error → W → Type 0} (X : Type 0)
      → Triple P m Q E
      → Triple (λ w. P w × X) m (λ a w. Q a w × X) E
  Triple-frame {m} X t = record {
    at = λ w h. Post-map (m w) (λ a w q. (q, h.1)) (λ e w q. q) (t.at w h.0);
  }

  -- The precondition holds a fact that does not mention the world.
  pub Triple-fact :
      {P : W → Type 0} {m : M W A} {Q : A → W → Type 0} {E : Error → W → Type 0} {X : Type 0}
      → (X → Triple P m Q E)
      → Triple (λ w. P w × X) m Q E
  Triple-fact f = record { at = λ w h. (f h.1).at w h.0 }

module _ {W A B : Type 0} where
  Post-bind :
      {R : A → W → Type 0} {Q : B → W → Type 0} {E : Error → W → Type 0} (r : Result A × W)
      (f : A → M W B)
      → ((a : A) → Triple (R a) (f a) Q E)
      → Post R E r
      → Post Q E (((λ (w : W). r) >>= f) r.1)
  Post-bind (ok a, w) f tf h = (tf a).at w h
  Post-bind (err e, w) f tf h = h

  pub Triple-bind :
      {P : W → Type 0} (R : A → W → Type 0) {Q : B → W → Type 0} {E : Error → W → Type 0}
      (m : M W A) (f : A → M W B)
      → Triple P m R E
      → ((a : A) → Triple (R a) (f a) Q E)
      → Triple P (m >>= f) Q E
  Triple-bind R m f tm tf = record { at = λ w h. Post-bind (m w) f tf (tm.at w h) }

module _ {W : Type 0} where
  pub Triple-then :
      {A : Type 0} {P : W → Type 0} (R : W → Type 0) {Q : A → W → Type 0} {E : Error → W → Type 0}
      (m : M W (Unit {0})) (k : M W A)
      → Triple P m (λ _ w. R w) E
      → Triple R k Q E
      → Triple P (m >> k) Q E
  Triple-then R m k tm tk = Triple-bind (λ _ w. R w) m (λ _. k) tm (λ _. tk)

  pub Triple-guard_not :
      {P : W → Type 0} {E : Error → W → Type 0} (b : Bool) (e : Error)
      → ((w : W) → b ≡ true → P w → E e w)
      → Triple P (guard_not b e) (λ _ w. P w × (b ≡ false)) E
  Triple-guard_not true e h = record { at = λ w p. h w refl p }
  Triple-guard_not false e h = record { at = λ w p. (p, refl) }

module _ {W A : Type 0} where
  post_ignore :
      (R : W → Type 0) (r : Result A × W) → Post {A = A} (λ _ w. R w) (λ _ w. R w) r → R r.1
  post_ignore R (ok a, w) h = h
  post_ignore R (err e, w) h = h

  Post-or_zero :
      (Q : A → W → Type 0) (E : Error → W → Type 0) (d : A) (r : Result A × W)
      → Post Q (λ _ w. Q d w) r
      → Post Q E (or_zero d (λ (w : W). r) r.1)
  Post-or_zero Q E d (ok a, w) h = h
  Post-or_zero Q E d (err e, w) h = h

  post_attempt :
      (Q : Result A → W → Type 0) (r : Result A × W)
      → Post (λ a. Q (ok a)) (λ e. Q (err e)) r
      → Q r.0 r.1
  post_attempt Q (ok a, w) h = h
  post_attempt Q (err e, w) h = h

  Post-map_err :
      (Q : A → W → Type 0) (E : Error → W → Type 0) (f : Error → Error) (r : Result A × W)
      → Post Q (λ e. E (f e)) r
      → Post Q E (map_err f (λ (w : W). r) r.1)
  Post-map_err Q E f (ok a, w) h = h
  Post-map_err Q E f (err e, w) h = h

module _ {W A : Type 0} {P : W → Type 0} where
  pub Triple-ignore :
      (R : W → Type 0) {E : Error → W → Type 0} (m : M W A)
      → Triple P m (λ _ w. R w) (λ _ w. R w)
      → Triple P (ignore m) (λ _ w. R w) E
  Triple-ignore R m t = record { at = λ w h. post_ignore R (m w) (t.at w h) }

  pub Triple-or_zero :
      {Q : A → W → Type 0} {E : Error → W → Type 0} (d : A) (m : M W A)
      → Triple P m Q (λ _ w. Q d w)
      → Triple P (or_zero d m) Q E
  Triple-or_zero {Q} {E} d m t = record { at = λ w h. Post-or_zero Q E d (m w) (t.at w h) }

  pub Triple-attempt :
      (Q : Result A → W → Type 0) {E : Error → W → Type 0} (m : M W A)
      → Triple P m (λ a. Q (ok a)) (λ e. Q (err e))
      → Triple P (attempt m) Q E
  Triple-attempt Q m t = record { at = λ w h. post_attempt Q (m w) (t.at w h) }

  pub Triple-map_err :
      {Q : A → W → Type 0} {E : Error → W → Type 0} (f : Error → Error) (m : M W A)
      → Triple P m Q (λ e. E (f e))
      → Triple P (map_err f m) Q E
  Triple-map_err {Q} {E} f m t = record { at = λ w h. Post-map_err Q E f (m w) (t.at w h) }
