-- ===== src/Server/Contents.antt =====
-- How often a descriptor stands in a queue, and what the operations of the queue do to that.
use mathlib.Core.Path.{subst}
use cs_bsc_technion.Base.{
  ℕ, suc, ◌+◌, ◌<◌, ◌≡◌, refl, some, List, [], ◌∷◌, ◌++◌, length, length-append, if◌then◌else◌,
  ◌==◌, ℤ, arith, ap, sym, ◌∙◌,
}
use cs_bsc_technion.Queue.{Node, Queue, dequeue, dequeue_by_index}
use cs_bsc_technion.Queue.Refine.{IsTaken, index_of}

-- One for two numbers that agree.
abbrev pub same : ℕ → ℕ → ℕ
same x y = if x == y then 1 else 0

abbrev pub count : ℕ → List ℕ → ℕ
count x [] = 0
count x (y ∷ ys) = same x y + count x ys

abbrev pub values : List Node → List ℕ
values [] = []
values (n ∷ ns) = n.value ∷ values ns

pub count-append : (x : ℕ) (ys zs : List ℕ) → count x (ys ++ zs) ≡ count x ys + count x zs
count-append x [] zs = omega arith
count-append x (y ∷ ys) zs = omega (arith, count-append x ys zs)

pub values-append : (xs ys : List Node) → values (xs ++ ys) ≡ values xs ++ values ys
values-append [] ys = refl
values-append (x ∷ xs) ys = ap (λ (t : List ℕ). x.value ∷ t) (values-append xs ys)

-- The occurrences in a queue.
abbrev pub held : ℕ → Queue → ℕ
held x queue = count x (values queue.head)

pub count-values-append :
    (x : ℕ) (xs ys : List Node)
    → count x (values (xs ++ ys)) ≡ count x (values xs) + count x (values ys)
count-values-append x xs ys =
    ap (count x) (values-append xs ys) ∙ count-append x (values xs) (values ys)

-- What is taken out is one occurrence less, and one node less.
pub IsTaken-count :
    (x : ℕ) {xs : List Node} {index value : ℕ} {ys : List Node}
    → IsTaken xs index value ys
    → (count x (values xs) ≡ same x value + count x (values ys)) × (length xs ≡ suc (length ys))
IsTaken-count x (before, n, after, whole, rest, place, here) = (
  ap (λ (t : List Node). count x (values t)) whole
      ∙ (omega (
        arith,
        count-values-append x before (n ∷ after),
        count-values-append x before after,
        ap (λ (t : List Node). count x (values t)) rest,
        ap (same x) here,
      )),
  ap length whole
      ∙ (omega
          (arith, length-append before (n ∷ after), length-append before after, ap length rest)),
)

pub max_size-dequeue :
    (queue : Queue) {value : ℤ} {queue' : Queue}
    → dequeue queue ≡ some (value, queue')
    → queue'.max_size ≡ queue.max_size
unfolding dequeue
max_size-dequeue queue e = ground arith

pub max_size-dequeue_by_index :
    (queue : Queue) (index : ℤ) {value : ℤ} {queue' : Queue}
    → dequeue_by_index queue index ≡ some (value, queue')
    → queue'.max_size ≡ queue.max_size
unfolding dequeue_by_index dequeue
max_size-dequeue_by_index queue index e = ground arith

-- A descriptor that is in the queue has its first index below the size, and that node has it.
pub index_of-lt : (x : ℕ) (xs : List Node) → 0 < count x (values xs) → index_of xs x < length xs
unfolding index_of
index_of-lt x [] h = absurd (omega arith)
index_of-lt x (n ∷ xs) h = ground (arith, index_of-lt x xs)

index_of-here :
    (x : ℕ) (before : List Node) (n : Node) (after : List Node)
    → 0 < count x (values (before ++ n ∷ after))
    → length before ≡ index_of (before ++ n ∷ after) x
    → n.value ≡ x
unfolding index_of
index_of-here x [] n after h e = ground arith
index_of-here x (b ∷ before) n after h e = ground (arith, e, h, index_of-here x before n after)

pub IsTaken-index_of :
    (x : ℕ) {xs : List Node} {value : ℕ} {ys : List Node}
    → 0 < count x (values xs)
    → IsTaken xs (index_of xs x) value ys
    → value ≡ x
IsTaken-index_of x {xs} h (before, n, after, whole, rest, place, here) =
    sym here
    ∙ index_of-here x before n after (subst (λ (zs : List Node). 0 < count x (values zs)) whole h)
        (place ∙ ap (λ (zs : List Node). index_of zs x) whole)
