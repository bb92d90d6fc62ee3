-- ===== src/Redis/Client/Rules.antt =====
-- What a request does to the server's data, whatever its answer.
use flashsale_service.Effect.Triple.{Triple, Post}
use flashsale_service.Errors.{Error}
use flashsale_service.Redis.Client.{received, request, Net, asking, sending, again}
use flashsale_service.Prelude.{◌+◌, ◌≡◌, refl, ap, ◌∙◌, ℕ, suc, zero}
use flashsale_service.Effect.{ok, err, M, Result, ◌>>=◌}
use flashsale_service.Effect.Answer.{answered, failed, reply_lost, Answer}

module _ {S A : Type 0} where
  received-Post :
      (Q : A → S → Type 0) (E : Error → S → Type 0) (a : Answer) (c : M S A) (n : Net S)
      → Post Q E (c n.data_of)
      → Post (λ x n'. Q x n'.data_of) (λ _ _. Unit {0}) (received a c n)
  unfolding received
  received-Post Q E answered c n h = answered-Post (c n.data_of) h
    where
      answered-Post :
          (x : Result A × S)
          → Post Q E x
          → Post
              (λ y (n' : Net S). Q y n'.data_of)
              (λ _ _. Unit {0})
              (x.0, record n { data_of = x.1 })
      answered-Post (ok y, s) h = h
      answered-Post (err e, s) h = tt
  received-Post Q E failed c n h = tt
  received-Post Q E reply_lost c n h = tt

  -- What holds of the sendings that are left holds of one that may be followed by them.
  again-Post :
      (P : S → Type 0) (Q : A → S → Type 0) (E : Error → S → Type 0) (c : M S A)
      (next : M (Net S) A) (a : Answer) (n : Net S)
      → Post Q E (c n.data_of)
      → P n.data_of
      → P (c n.data_of).1
      → ((m : Net S) → P m.data_of → Post (λ x n'. Q x n'.data_of) (λ _ _. Unit {0}) (next m))
      → Post (λ x n'. Q x n'.data_of) (λ _ _. Unit {0}) (again a next c n)
  unfolding received
  again-Post P Q E c next answered n done h k rest = received-Post Q E answered c n done
  again-Post P Q E c next failed n done h k rest = rest n h
  again-Post P Q E c next reply_lost n done h k rest =
      rest (record n { data_of = (c n.data_of).1 }) k

  sending-Post :
      (P : S → Type 0) (Q : A → S → Type 0) (E : Error → S → Type 0) (c : M S A)
      → ((s : S) → P s → P (c s).1)
      → Triple P c Q E
      → (left : ℕ) (n : Net S) → P n.data_of
      → Post (λ x n'. Q x n'.data_of) (λ _ _. Unit {0}) (sending left c n)
  unfolding sending
  sending-Post P Q E c keeps t zero n h =
      received-Post Q E (n.answers n.tick) c (record n { tick = n.tick + 1 }) (t.at n.data_of h)
  sending-Post P Q E c keeps t (suc left) n h =
      again-Post P Q E c (sending left c) (n.answers n.tick) (record n { tick = n.tick + 1 })
        (t.at n.data_of h) h (keeps n.data_of h) (sending-Post P Q E c keeps t left)

  -- A request that returns a value ran its command, perhaps after it ran before.
  pub Triple-request :
      {P : S → Type 0} {Q : A → S → Type 0} {E : Error → S → Type 0} (c : M S A)
      → ((s : S) → P s → P (c s).1)
      → Triple P c Q E
      → Triple (λ n. P n.data_of) (request c) (λ x n. Q x n.data_of) (λ _ _. Unit {0})
  unfolding request
  Triple-request {P} {Q} {E} c keeps t = record { at = λ n h. sending-Post P Q E c keeps t 3 n h }

  received-keeps :
      (P : S → Type 0) (a : Answer) (c : M S A) (n : Net S)
      → P n.data_of
      → P (c n.data_of).1
      → P (received a c n).1.data_of
  unfolding received
  received-keeps P answered c n h k = k
  received-keeps P failed c n h k = h
  received-keeps P reply_lost c n h k = k

  again-keeps :
      (P : S → Type 0) (c : M S A) (next : M (Net S) A) (a : Answer) (n : Net S)
      → P n.data_of
      → P (c n.data_of).1
      → ((m : Net S) → P m.data_of → P (next m).1.data_of)
      → P (again a next c n).1.data_of
  unfolding received
  again-keeps P c next answered n h k rest = k
  again-keeps P c next failed n h k rest = rest n h
  again-keeps P c next reply_lost n h k rest = rest (record n { data_of = (c n.data_of).1 }) k

  sending-keeps :
      (P : S → Type 0) (c : M S A)
      → ((s : S) → P s → P (c s).1)
      → (left : ℕ) (n : Net S) → P n.data_of
      → P (sending left c n).1.data_of
  unfolding sending
  sending-keeps P c keeps zero n h =
      received-keeps P (n.answers n.tick) c (record n { tick = n.tick + 1 }) h (keeps n.data_of h)
  sending-keeps P c keeps (suc left) n h =
      again-keeps P c (sending left c) (n.answers n.tick) (record n { tick = n.tick + 1 }) h
        (keeps n.data_of h) (sending-keeps P c keeps left)

  -- What the command keeps the request keeps, also where its answer is lost and it is sent again.
  pub request-keeps :
      (P : S → Type 0) (c : M S A)
      → ((s : S) → P s → P (c s).1)
      → (n : Net S) → P n.data_of
      → P (request c n).1.data_of
  unfolding request
  request-keeps P c keeps n h = sending-keeps P c keeps 3 n h

-- What follows an action that returned a value.
pub bind-ok :
    {W A B : Type 0} (m : M W A) (k : A → M W B) (w w' : W) (a : A)
    → m w ≡ (ok a, w')
    → (m >>= k) w ≡ k a w'
bind-ok {W} {A} {B} m k w w' a h =
    bound (m w).0 (m w).1 (ap (λ (y : Result A × W). y.0) h) (ap (λ (y : Result A × W). y.1) h)
  where
    bound : (x : Result A) (v : W) → x ≡ ok a → v ≡ w' → ((λ (_ : W). (x, v)) >>= k) w ≡ k a w'
    bound x v e q = rw (e, q) refl

pub asked-bind :
    {S A B : Type 0} (f : S → Result A) (k : A → M S B) (s : S) (a : A)
    → f s ≡ ok a
    → (asking f >>= k) s ≡ k a s
asked-bind f k s a h = bind-ok (asking f) k s s a (ap (λ x. (x, s)) h)

-- A request that is answered.
abbrev pub answered_once : {S : Type 0} → Net S → S → Net S
answered_once n s = record n { tick = n.tick + 1; data_of = s }

pub request-answered :
    {S A : Type 0} (c : M S A) (n : Net S)
    → n.answers n.tick ≡ answered
    → request c n ≡ ((c n.data_of).0, answered_once n (c n.data_of).1)
unfolding request sending received
request-answered c n h = rw h refl

pub answered-bind :
    {S A B : Type 0} (c : M S A) (k : A → M (Net S) B) (n : Net S) (a : A) (s : S)
    → n.answers n.tick ≡ answered
    → c n.data_of ≡ (ok a, s)
    → (request c >>= k) n ≡ k a (answered_once n s)
answered-bind c k n a s h runs =
    bind-ok (request c) k n (answered_once n s) a
      (request-answered c n h ∙ ap (λ y. (y.0, answered_once n y.1)) runs)
