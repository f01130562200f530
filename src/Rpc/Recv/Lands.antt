-- ===== src/Rpc/Recv/Lands.antt =====
-- src/libksupport/src/rpc.rs: a receiving step that ends in a result or in an error of the reader.
use madmax_artiq_zynq.Base.{
  ℕ, ◌≡◌, sym, ◌∙◌, Bool, true, false, List, length, take, drop, leb, if◌then◌else◌, arith,
}
use madmax_artiq_zynq.Outcome.{Outcome, ok, err, panic, map_err, ok_injective}
use madmax_artiq_zynq.Outcome
use madmax_artiq_zynq.Io.Cursor.{IoError, unexpected_eof}
use madmax_artiq_zynq.Io.Proto.{ByteOrder, Reader, read_exact, read_u8, read_u32, read_u64, pure}
use madmax_artiq_zynq.Io.Proto
use madmax_artiq_zynq.Rpc.Tag.{Result}
use madmax_artiq_zynq.Rpc.Layout.{is_power_of_two, round_up}
use madmax_artiq_zynq.Rpc.Layout.Rounding.{up, up-bounds, round_up-power}
use madmax_artiq_zynq.Rpc.Layout.Struct.{IsAlignment}
use madmax_artiq_zynq.Rpc.Layout.Sized.{Fits, round_up-align, IsAlignment-pos, IsAlignment-power}
use madmax_artiq_zynq.Rpc.Recv.{
  RecvError, io, out_of_fuel, Store, Machine, Recv, ◌>>=◌, lift, reading, store, allocate, offset,
  consume_value,
}
use madmax_artiq_zynq.Rpc.Recv

-- Neither a panic nor out of fuel, and the value is such.
unfoldable pub LandsOn :
    {H A : Type 0} → (A → Type 0) → Outcome (RecvError H) (A × Machine H) → Type 0
LandsOn P (ok (a, m)) = P a
LandsOn P (err (io e m)) = Unit {0}
LandsOn P (err out_of_fuel) = ⊥
LandsOn P panic = ⊥

unfoldable pub Lands : {H A : Type 0} → (A → Type 0) → Recv H A → Type 0
unfolding LandsOn
Lands {H} P r = (m : Machine H) → LandsOn P (r m)

module _ {H A B : Type 0} (Q : A → Type 0) (P : B → Type 0) where
  LandsOn-bind :
      (o : Outcome (RecvError H) (A × Machine H)) (k : A → Recv H B)
      → LandsOn Q o
      → ((a : A) → Q a → Lands P (k a))
      → LandsOn P (Outcome.◌>>=◌ o (λ p. k p.0 p.1))
  unfolding Lands
  LandsOn-bind (ok (a, m)) k q p = p a q m
  LandsOn-bind (err (io e m)) k q p = tt
  LandsOn-bind (err out_of_fuel) k q p = q
  LandsOn-bind panic k q p = q

  pub Lands-bind :
      (r : Recv H A) (k : A → Recv H B)
      → Lands Q r
      → ((a : A) → Q a → Lands P (k a))
      → Lands P (r >>= k)
  unfolding Lands
  Lands-bind r k q p m = LandsOn-bind (r m) k (q m) p

abbrev NoPanic : {A : Type 0} → Outcome IoError A → Type 0
NoPanic (ok a) = Unit {0}
NoPanic (err e) = Unit {0}
NoPanic panic = ⊥

if-NoPanic : {A : Type 0} (c : Bool) (a : A) (e : IoError) → NoPanic (if c then ok a else err e)
if-NoPanic true a e = tt
if-NoPanic false a e = tt

read_exact-NoPanic : (n : ℕ) (s : List ℕ) → NoPanic (read_exact n s)
unfolding read_exact
read_exact-NoPanic n s = if-NoPanic (leb n (length s)) (take n s, drop n s) unexpected_eof

map-NoPanic :
    {A B : Type 0} (o : Outcome IoError A) (f : A → B)
    → NoPanic o
    → NoPanic (Outcome.◌>>=◌ o (λ a. ok (f a)))
map-NoPanic (ok a) f h = tt
map-NoPanic (err e) f h = tt
map-NoPanic panic f h = h

-- A value that is made of so many bytes.
value-NoPanic :
    {A : Type 0} (n : ℕ) (f : List ℕ → A) (s : List ℕ)
    → NoPanic (Proto.◌>>=◌ (read_exact n) (λ bytes. Proto.pure (f bytes)) s)
unfolding Proto.◌>>=◌ Proto.pure
value-NoPanic n f s = map-NoPanic (read_exact n s) (λ p. (f p.0, p.1)) (read_exact-NoPanic n s)

-- A step whose value does not matter.
pub step-Lands :
    {H A B : Type 0} (Q : A → Type 0) (P : B → Type 0) (r : Recv H A) (k : A → Recv H B)
    → Lands Q r
    → ((a : A) → Lands P (k a))
    → Lands P (r >>= k)
step-Lands Q P r k q p = Lands-bind Q P r k q λ a _. p a

-- A step of the tags that is known.
pub lift-Lands :
    {H A B : Type 0} (P : B → Type 0) (r : Result A) (a : A) (k : A → Recv H B)
    → r ≡ ok a
    → Lands P (k a)
    → Lands P (lift r >>= k)
unfolding Lands
lift-Lands P r a k e p m = rw e (p m)

module _ (H : Type 0) where
  pub Lands-pure : {A : Type 0} (P : A → Type 0) (a : A) → P a → Lands {H = H} P (Recv.pure a)
  unfolding Lands
  Lands-pure P a p m = p

  LandsOn-weaken :
      {A : Type 0} (P Q : A → Type 0) (o : Outcome (RecvError H) (A × Machine H))
      → LandsOn P o
      → ((a : A) → P a → Q a)
      → LandsOn Q o
  unfolding LandsOn
  LandsOn-weaken P Q (ok (a, m)) p h = h a p
  LandsOn-weaken P Q (err (io e m)) p h = tt
  LandsOn-weaken P Q (err out_of_fuel) p h = p
  LandsOn-weaken P Q panic p h = p

  pub Lands-weaken :
      {A : Type 0} (P Q : A → Type 0) (r : Recv H A) → Lands P r → ((a : A) → P a → Q a) → Lands Q r
  unfolding Lands
  Lands-weaken P Q r p h m = LandsOn-weaken P Q (r m) (p m) h

  pub Lands-lift :
      {A : Type 0} (P : A → Type 0) (r : Result A) (a : A)
      → r ≡ ok a
      → P a
      → Lands {H = H} P (lift r)
  unfolding Lands
  Lands-lift P r a e p m = rw e p

  pub Lands-store :
      (address : ℕ) (bytes : List ℕ) → Lands {H = H} (λ _. Unit {0}) (store address bytes)
  unfolding Lands
  Lands-store address bytes m = tt

  io-LandsOn :
      {A : Type 0} (o : Outcome IoError (A × List ℕ)) (m : Machine H)
      → NoPanic o
      → LandsOn {H = H} {A = A}
          (λ _. Unit {0})
          (Outcome.◌>>=◌ (map_err (λ e. io e m) o) (λ p. ok (p.0, record m { reader = p.1 })))
  unfolding LandsOn
  io-LandsOn (ok p) m h = tt
  io-LandsOn (err e) m h = tt
  io-LandsOn panic m h = h

  reading-Lands :
      {A : Type 0} (r : Reader A)
      → ((s : List ℕ) → NoPanic (r s))
      → Lands {H = H} (λ _. Unit {0}) (reading r)
  unfolding Lands
  reading-Lands r h m = io-LandsOn (r m.reader) m (h m.reader)

  pub read_exact-Lands : (n : ℕ) → Lands {H = H} (λ _. Unit {0}) (reading (read_exact n))
  read_exact-Lands n = reading-Lands (read_exact n) (read_exact-NoPanic n)

  pub read_u8-Lands : Lands {H = H} (λ _. Unit {0}) (reading read_u8)
  unfolding read_u8
  read_u8-Lands = reading-Lands read_u8 (value-NoPanic 1 _)

  pub read_u32-Lands : ⦃e : ByteOrder⦄ → Lands {H = H} (λ _. Unit {0}) (reading read_u32)
  unfolding read_u32
  read_u32-Lands ⦃e⦄ = reading-Lands read_u32 (value-NoPanic 4 e.to_u32)

  pub read_u64-Lands : ⦃e : ByteOrder⦄ → Lands {H = H} (λ _. Unit {0}) (reading read_u64)
  unfolding read_u64
  read_u64-Lands ⦃e⦄ = reading-Lands read_u64 (value-NoPanic 8 e.to_u64)

-- Rounding up to an alignment does not panic, whether it overflows or not.
pub round_up-align_ok :
    (v a : ℕ) → IsAlignment a → (r : ℕ) × (round_up v a ≡ ok r) × (Fits (up v a) → r ≡ up v a)
round_up-align_ok v a h = (
  _,
  round_up-power v a power,
  λ fits. ok_injective (
      sym (round_up-power v a power)
      ∙ round_up-align v a h (omega (arith, (up-bounds v a (IsAlignment-pos a h).0).0))),
)
  where
    power : is_power_of_two 32 a ≡ true
    power = IsAlignment-power a h
