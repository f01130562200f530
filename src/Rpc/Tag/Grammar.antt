-- ===== src/Rpc/Tag/Grammar.antt =====
-- src/libksupport/src/rpc.rs, mod tag: the iterator reads back the bytes of a shape.
use madmax_artiq_zynq.Base.{
  ℕ, zero, suc, ◌-◌, ◌≤◌, ◌≡◌, refl, ap, subst, List, [], ◌∷◌, ◌++◌, length, take, All, ◌≢◌, ==_ne,
  append_assoc, append-nil, length-append, take-append, arith,
}
use madmax_artiq_zynq.Outcome.{ok}
use madmax_artiq_zynq.Rpc.Tag.{Tag, Next, skip, sub, tag_of_byte, next_on, next, as_u8, split_tag}
use madmax_artiq_zynq.Rpc.Tag.Shape.{Shape, Shapes, count, print, print_all}
use madmax_artiq_zynq.Rpc.Tag.Shape
use mathlib.Core.Option.{Option}

-- The tag of a shape: its parts are their bytes.
unfoldable pub tag_of : Shape → Tag
unfolding print
tag_of Shape.none = Tag.none
tag_of Shape.bool = Tag.bool
tag_of Shape.int32 = Tag.int32
tag_of Shape.int64 = Tag.int64
tag_of Shape.float64 = Tag.float64
tag_of Shape.string = Tag.string
tag_of Shape.bytes = Tag.bytes
tag_of Shape.byte_array = Tag.byte_array
tag_of Shape.object = Tag.object
tag_of (Shape.tuple ss) = Tag.tuple (print_all ss) (count ss)
tag_of (Shape.list s) = Tag.list (print s)
tag_of (Shape.array s num_dims) = Tag.array (print s) num_dims
tag_of (Shape.range s) = Tag.range (print s)
tag_of (Shape.keyword s) = Tag.keyword (print s)

-- What `sub` makes of the loop's result.
sub_lem :
    (f : Next) (n : ℕ) (bytes rest : List ℕ)
    → skip f n (bytes ++ rest) ≡ ok rest
    → sub f n (bytes ++ rest) ≡ ok (bytes, rest)
unfolding sub
sub_lem f n bytes rest e = rw e (
    ap (λ x. ok (x, rest))
      (take-append (length (bytes ++ rest) - length rest) bytes rest
        (omega (arith, length-append bytes rest))))

sub_one :
    (f : Next) (tag : Tag) (bytes rest : List ℕ)
    → f (bytes ++ rest) ≡ ok (Option.some (tag, rest))
    → sub f 1 (bytes ++ rest) ≡ ok (bytes, rest)
unfolding skip
sub_one f tag bytes rest e = sub_lem f 1 bytes rest (rw e)

mutual
  unfolding print next_on tag_of_byte tag_of skip

  next_on-print :
      (fuel : ℕ) (s : Shape) (rest : List ℕ)
      → length (print s) ≤ fuel
      → next_on fuel (print s ++ rest) ≡ ok (Option.some (tag_of s, rest))
  next_on-print zero Shape.none rest h = absurd (omega arith)
  next_on-print zero Shape.bool rest h = absurd (omega arith)
  next_on-print zero Shape.int32 rest h = absurd (omega arith)
  next_on-print zero Shape.int64 rest h = absurd (omega arith)
  next_on-print zero Shape.float64 rest h = absurd (omega arith)
  next_on-print zero Shape.string rest h = absurd (omega arith)
  next_on-print zero Shape.bytes rest h = absurd (omega arith)
  next_on-print zero Shape.byte_array rest h = absurd (omega arith)
  next_on-print zero Shape.object rest h = absurd (omega arith)
  next_on-print zero (Shape.tuple ss) rest h = absurd (omega arith)
  next_on-print zero (Shape.list s) rest h = absurd (omega arith)
  next_on-print zero (Shape.array s num_dims) rest h = absurd (omega arith)
  next_on-print zero (Shape.range s) rest h = absurd (omega arith)
  next_on-print zero (Shape.keyword s) rest h = absurd (omega arith)
  next_on-print (suc fuel) Shape.none rest h = refl
  next_on-print (suc fuel) Shape.bool rest h = refl
  next_on-print (suc fuel) Shape.int32 rest h = refl
  next_on-print (suc fuel) Shape.int64 rest h = refl
  next_on-print (suc fuel) Shape.float64 rest h = refl
  next_on-print (suc fuel) Shape.string rest h = refl
  next_on-print (suc fuel) Shape.bytes rest h = refl
  next_on-print (suc fuel) Shape.byte_array rest h = refl
  next_on-print (suc fuel) Shape.object rest h = refl
  next_on-print (suc fuel) (Shape.tuple ss) rest h = rw (
      sub_lem (next_on fuel) (count ss) (print_all ss) rest
        (skip-print_all fuel ss rest (omega arith)))
  next_on-print (suc fuel) (Shape.list s) rest h =
      rw
        (sub_one (next_on fuel) (tag_of s) (print s) rest (next_on-print fuel s rest (omega arith)))
  next_on-print (suc fuel) (Shape.array s num_dims) rest h =
      rw
        (sub_one (next_on fuel) (tag_of s) (print s) rest (next_on-print fuel s rest (omega arith)))
  next_on-print (suc fuel) (Shape.range s) rest h =
      rw
        (sub_one (next_on fuel) (tag_of s) (print s) rest (next_on-print fuel s rest (omega arith)))
  next_on-print (suc fuel) (Shape.keyword s) rest h =
      rw
        (sub_one (next_on fuel) (tag_of s) (print s) rest (next_on-print fuel s rest (omega arith)))

  skip-print_all :
      (fuel : ℕ) (ss : Shapes) (rest : List ℕ)
      → length (print_all ss) ≤ fuel
      → skip (next_on fuel) (count ss) (print_all ss ++ rest) ≡ ok rest
  skip-print_all fuel Shape.nil rest h = refl
  skip-print_all fuel (Shape.cons s ss) rest h =
      rw
        (
          append_assoc (print s) (print_all ss) rest,
          next_on-print fuel s (print_all ss ++ rest)
              (omega (arith, length-append (print s) (print_all ss))),
        )
        (skip-print_all fuel ss rest (omega (arith, length-append (print s) (print_all ss))))

-- The iterator reads a printed shape back as its tag, whatever bytes follow, and leaves those.
pub next-print :
    (s : Shape) (rest : List ℕ) → next (print s ++ rest) ≡ ok (Option.some (tag_of s, rest))
unfolding next
next-print s rest =
    next_on-print (suc (length (print s ++ rest))) s rest
      (omega (arith, length-append (print s) rest))

-- The parts of a printed tuple: the loop reads as many tags as it has elements.
pub skip-print :
    (ss : Shapes) (rest : List ℕ) → skip next (count ss) (print_all ss ++ rest) ≡ ok rest
unfolding skip print
skip-print Shape.nil rest = refl
skip-print (Shape.cons s ss) rest =
    rw (append_assoc (print s) (print_all ss) rest, next-print s (print_all ss ++ rest))
      (skip-print ss rest)

-- `as_u8` of a shape's tag is the byte that its printed form starts with.
as_u8-print : (s : Shape) → take 1 (print s) ≡ as_u8 (tag_of s) ∷ []
unfolding as_u8 tag_of print take
as_u8-print Shape.none = refl
as_u8-print Shape.bool = refl
as_u8-print Shape.int32 = refl
as_u8-print Shape.int64 = refl
as_u8-print Shape.float64 = refl
as_u8-print Shape.string = refl
as_u8-print Shape.bytes = refl
as_u8-print Shape.byte_array = refl
as_u8-print Shape.object = refl
as_u8-print (Shape.tuple ss) = refl
as_u8-print (Shape.list s) = refl
as_u8-print (Shape.array s num_dims) = refl
as_u8-print (Shape.range s) = refl
as_u8-print (Shape.keyword s) = refl

-- A tag string `args:returned` splits at the colon when the arguments have none.
pub split_tag-append :
    (args returned : List ℕ)
    → All (λ b. b ≢ b':') args
    → split_tag (args ++ b':' ∷ returned) ≡ ok (args, returned)
unfolding split_tag
split_tag-append [] returned h = refl
split_tag-append (b ∷ args) returned (nb, hs) =
    rw (==_ne b b':' nb, split_tag-append args returned hs)

pub next-print_alone : (s : Shape) → next (print s) ≡ ok (Option.some (tag_of s, []))
next-print_alone s =
    subst (λ it. next it ≡ ok (Option.some (tag_of s, []))) (append-nil (print s)) (next-print s [])
