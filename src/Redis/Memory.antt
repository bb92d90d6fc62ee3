-- ===== src/Redis/Memory.antt =====
-- A server whose data are functions of the keys and where no time passes: it shows that what is
-- assumed of the server can hold. Numbers are written in strokes,
-- and the numbers of Lua are exact.
use flashsale_service.Errors.{external}
use flashsale_service.Redis.Server.{Redis, parsed, counter, IsRedis}
use flashsale_service.Prelude.{
  ◌≡◌, refl, String, none, ℕ, ℤ, Option, Bool, false, suc, if◌then◌else◌, some, ◌≢◌, pos, ◌<>◌,
  ◌=ℕ=◌, ap, true, ◌==◌, ◌+ℤ◌, arith, negsuc, ◌&&◌, eq_iff, zero, ◌∙◌,
}
use flashsale_service.Effect.{ok, err, Result}
use text.Mathlib.TextPositions.{eq_refl}
use Prim.Native.Char.{code}
use text.Mathlib.TextLemmas.{cons-append, nil-append}

pub record Data : Type 0 where
  pub texts : String → Option String
  pub members : String → String → Bool
  pub bits : String → ℕ → Bool

abbrev pub empty_data : Data
empty_data = record { texts = λ k. none; members = λ k x. false; bits = λ k p. false }

abbrev strokes : ℕ → String
strokes zero = ""
strokes (suc n) = "1" <> strokes n

abbrev written : ℤ → String
written (pos n) = "p" <> strokes n
written (negsuc n) = "n" <> strokes n

abbrev characters : String → ℕ
characters String.[] = 0
characters (String.◌∷◌ c s) = suc (characters s)

abbrev read : String → Option ℤ
read String.[] = none
read (String.◌∷◌ c s) =
    if code c =ℕ= code_of_p then some (pos (characters s)) else some (negsuc (characters s))
  where
    code_of_p : ℕ
    code_of_p = b'p'

characters-strokes : (n : ℕ) → characters (strokes n) ≡ n
characters-strokes zero = refl
characters-strokes (suc n) = rw (cons-append, nil-append) (ap suc (characters-strokes n))

read-written : (n : ℤ) → read (written n) ≡ some n
read-written (pos n) = rw (cons-append, nil-append) (ap (λ k. some (pos k)) (characters-strokes n))
read-written (negsuc n) =
    rw (cons-append, nil-append) (ap (λ k. some (negsuc k)) (characters-strokes n))

abbrev is_some : Option String → Bool
is_some none = false
is_some (some _) = true

abbrev put : String → Option String → Data → Data
put k v s = record s { texts = λ j. if k == j then v else s.texts j }

abbrev number : Option String → Option ℤ
number none = some (pos 0)
number (some text) = read text

abbrev increased : String → ℤ → Data → Option ℤ → Result ℤ × Data
increased k d s (some n) = (ok (n +ℤ d), put k (some (written (n +ℤ d))) s)
increased k d s none = (err (external "ERR value is not an integer or out of range"), s)

abbrev set_if_free : String → String → Data → Bool → Bool × Data
set_if_free k v s true = (false, s)
set_if_free k v s false = (true, put k (some v) s)

abbrev pub memory : Redis Data
memory = record {
  get = λ k s. ok (s.texts k);
  set = λ k v e s. put k (some v) s;
  set_nx = λ k v e s. set_if_free k v s (is_some (s.texts k));
  incr_by = λ k d s. increased k d s (number (s.texts k));
  del = λ k s. put k none s;
  exists = λ k s. is_some (s.texts k);
  expire = λ k e s. s;
  s_add = λ k x s.
      (ok tt, record s { members = λ j y. if k == j && x == y then true else s.members j y });
  s_is_member = λ k x s. ok (s.members k x);
  set_bit =
      λ k p s. (ok tt, record s { bits = λ j q. if k == j && p =ℕ= q then true else s.bits j q });
  get_bit = λ k p s. ok (s.bits k p);
  itoa = written;
  atoi = read;
  lua_number = λ n. n;
  lua_text = written;
}

number_of_counter :
    (text : Option String) (n : ℤ) → parsed memory text ≡ ok n → number text ≡ some n
number_of_counter none n h = cc
number_of_counter (some text) n h = go (read text) h
  where
    go :
        (x : Option ℤ)
        → elim x [ some n ↦ ok n | none ↦ err (external "strconv.Atoi: parsing: invalid syntax") ]
          ≡ ok n
        → x ≡ some n
    go (some m) e = cc
    go none e = cc

put_self : (k : String) (v : Option String) (s : Data) → (put k v s).texts k ≡ v
put_self k v s = rw (eq_refl k) refl

put_other : (k j : String) (v : Option String) (s : Data) → k ≢ j → (put k v s).texts j ≡ s.texts j
put_other k j v s ne = ground (arith, eq_iff k j)

parsed-written : (n : ℤ) → parsed memory (some (written n)) ≡ ok n
parsed-written n = rw (parsed, read-written n) refl

increased-counter :
    (k : String) (d n : ℤ) (s : Data)
    → counter memory k s ≡ ok n
    → ((memory.incr_by k d s).0 ≡ ok (n +ℤ d))
      × (counter memory k (memory.incr_by k d s).1 ≡ ok (n +ℤ d))
unfolding counter
increased-counter k d n s h =
    rw (number_of_counter (s.texts k) n h)
      (refl, ap (parsed memory) (put_self k (some (written (n +ℤ d))) s) ∙ parsed-written (n +ℤ d))

increased-other :
    (k j : String) (d : ℤ) (s : Data) (x : Option ℤ)
    → k ≢ j
    → (increased k d s x).1.texts j ≡ s.texts j
increased-other k j d s (some n) ne = put_other k j (some (written (n +ℤ d))) s ne
increased-other k j d s none ne = refl

bit-put_self : (k : String) (p : ℕ) (old : Bool) → (if k == k && p =ℕ= p then true else old) ≡ true
bit-put_self k p old = rw (eq_refl k) (ground arith)

member-put_other :
    (k x y : String) (old : Bool) → x ≢ y → (if k == k && x == y then true else old) ≡ old
member-put_other k x y old ne = ground (arith, ne, eq_iff x y)

bit-put_keeps : (test old : Bool) → old ≡ true → (if test then true else old) ≡ true
bit-put_keeps test old h = ground (arith, h)

ok_inj : {a b : Bool} → ◌≡◌ {A = Result Bool} (ok a) (ok b) → a ≡ b
ok_inj h = cc

pub memory-IsRedis : IsRedis memory
memory-IsRedis = record {
  atoi-itoa = read-written;
  lua_number-Exact = λ n h. refl;
  lua_text-Exact = λ n h. refl;
  get-set = λ k v e s. ap ok (put_self k (some v) s);
  get-set_other = λ k j v e s ne. ap ok (put_other k j (some v) s ne);
  get-del = λ k s. ap ok (put_self k none s);
  get-del_other = λ k j s ne. ap ok (put_other k j none s ne);
  get-expire = λ k j e s h. refl;
  exists-set = λ k v e s. ap is_some (put_self k (some v) s);
  exists-del = λ k s. ap is_some (put_self k none s);
  set_nx-free = λ k v e s h. rw h refl;
  set_nx-held = λ k v e s h. rw h refl;
  incr_by-counter = λ k d n s h fits. increased-counter k d n s h;
  get-incr_by_other = λ k j d s ne. ap ok (increased-other k j d s (number (s.texts k)) ne);
  s_is_member-s_add = λ k x s h. rw (eq_refl k, eq_refl x) refl;
  s_is_member-s_add_other = λ k x y s ne h. ap ok (member-put_other k x y (s.members k y) ne);
  s_is_member-expire = λ k j x e s h. refl;
  get_bit-set_bit = λ k p s h. ap ok (bit-put_self k p (s.bits k p));
  set_bit-keeps = λ k p q s h. ap ok (bit-put_keeps (k == k && p =ℕ= q) (s.bits k q) (ok_inj h));
}
