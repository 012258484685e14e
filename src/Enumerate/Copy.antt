-- ===== src/Enumerate/Copy.antt =====
-- What the copying loops write, and the contract of an enumeration.
use vulkan_wsi_tizen.Common.{
  ℕ, zero, suc, ◌+◌, ◌≤◌, ◌<◌, ◌≡◌, refl, sym, ap, ◌∙◌, true, none, some, List, [], ◌∷◌, ◌++◌, map,
  arith, length, take, drop, set, get_elem?, get_elem?_of_lt, length-set, length-map, ltb, lt→ltb,
  min, if◌then◌else◌, ◌>>=◌, length-take,
}
use mathlib.Core.List.{append-nil, append_assoc}
use vulkan_wsi_tizen.Enumerate.Results.{success, incomplete}
use vulkan_wsi_tizen.Enumerate.{Query, write, memcpy, copy_loop}

-- The contract: the query enumerates `xs`. With an array that holds as much as is written, it writes
-- the first elements of `xs` to its front, leaves the rest of it alone, and says `incomplete` exactly
-- when the count asks for fewer elements than there are.
pub record Enumerates {A : Type 0} (xs : List A) (query : Query A) : Type 0 where
  pub counts : (n : ℕ) → query n none ≡ some (success, length xs, none)
  pub fills :
      (n : ℕ) (dst : List A)
      → min n (length xs) ≤ length dst
      → query n (some dst)
        ≡ some (
          (if ltb n (length xs) then incomplete else success),
          min n (length xs),
          some (take (min n (length xs)) xs ++ drop (min n (length xs)) dst),
        )

module _ {A : Type 0} where
  pub take-append-drop : (n : ℕ) (xs : List A) → take n xs ++ drop n xs ≡ xs
  take-append-drop zero xs = refl
  take-append-drop (suc n) [] = refl
  take-append-drop (suc n) (x ∷ xs) = ap (λ ys. x ∷ ys) (take-append-drop n xs)

  pub take-length : (n : ℕ) (xs : List A) → length xs ≤ n → take n xs ≡ xs
  take-length zero [] h = refl
  take-length zero (x ∷ xs) h = absurd (omega arith)
  take-length (suc n) [] h = refl
  take-length (suc n) (x ∷ xs) h = ap (λ ys. x ∷ ys) (take-length n xs (omega arith))

  pub drop-length : (n : ℕ) (xs : List A) → length xs ≤ n → drop n xs ≡ []
  drop-length zero [] h = refl
  drop-length zero (x ∷ xs) h = absurd (omega arith)
  drop-length (suc n) [] h = refl
  drop-length (suc n) (x ∷ xs) h = drop-length n xs (omega arith)

  pub memcpy-take :
      (n : ℕ) (src dst : List A)
      → n ≤ length src
      → n ≤ length dst
      → memcpy n src dst ≡ some (take n src ++ drop n dst)
  unfolding memcpy
  memcpy-take n src dst p q = ground arith

  -- The idiom of the callers: ask for the count, then fetch into an array of that size.
  pub fetch_all :
      {xs : List A} {query : Query A}
      → Enumerates xs query
      → (dst : List A) → length dst ≡ length xs
      → (query 0 none ≡ some (success, length xs, none))
        × (query (length xs) (some dst) ≡ some (success, length xs, some xs))
  fetch_all {xs} e dst same =
      let whole : min (length xs) (length xs) ≡ length xs = omega arith in
      (
        e.counts 0,
        e.fills (length xs) dst (omega arith)
            ∙ rw
                (
                  whole,
                  take-length (length xs) xs (omega arith),
                  drop-length (length xs) dst (omega arith),
                  append-nil,
                )
                (ground arith),
      )

  pub take-suc-set :
      (i : ℕ) (dst : List A) (x : A)
      → i < length dst
      → take (suc i) (set dst i x) ≡ take i dst ++ x ∷ []
  take-suc-set i [] x h = absurd (omega arith)
  take-suc-set zero (y ∷ dst) x h = refl
  take-suc-set (suc i) (y ∷ dst) x h = ap (λ ys. y ∷ ys) (take-suc-set i dst x (omega arith))

  pub drop-set : (i j : ℕ) (dst : List A) (x : A) → i < j → drop j (set dst i x) ≡ drop j dst
  drop-set i zero dst x h = absurd (omega arith)
  drop-set i (suc j) [] x h = refl
  drop-set zero (suc j) (y ∷ dst) x h = refl
  drop-set (suc i) (suc j) (y ∷ dst) x h = drop-set i j dst x (omega arith)

  pub take-suc-drop :
      (n i : ℕ) (xs : List A) (x : A)
      → get_elem? xs i ≡ some x
      → take (suc n) (drop i xs) ≡ x ∷ take n (drop (suc i) xs)
  take-suc-drop n i [] x h = cc
  take-suc-drop n zero (y ∷ xs) x h = cc
  take-suc-drop n (suc i) (y ∷ xs) x h = take-suc-drop n i xs x h

module _ {A B : Type 0} (f : B → A) where
  copy_loop_from :
      (n i : ℕ) (src : List B) (dst : List A)
      → i + n ≤ length src
      → i + n ≤ length dst
      → copy_loop f n i src dst
        ≡ some (take i dst ++ (map f (take n (drop i src)) ++ drop (i + n) dst))
  unfolding copy_loop write
  copy_loop_from zero i src dst p q =
      let still : i + 0 ≡ i = omega arith in rw still (ap some (sym (take-append-drop i dst)))
  copy_loop_from (suc n) i src dst p q =
      let (x, e) = get_elem?_of_lt src i (omega arith) in
      let one : i + 1 ≡ suc i = omega arith in
      let end : suc i + n ≡ i + suc n = omega arith in
      let room : ltb i (length dst) ≡ true = lt→ltb i (length dst) (omega arith) in
      rw
        (
          e,
          room,
          one,
          copy_loop_from n (suc i) src (set dst i (f x)) (omega arith)
              (rw length-set (omega arith)),
          take-suc-set i dst (f x) (omega arith),
          drop-set i (suc i + n) dst (f x) (omega arith),
          end,
          take-suc-drop n i src x e,
        )
        (ap some (append_assoc (take i dst) (f x ∷ []) _))

  -- The loop from the first index writes the images of the first `n` elements.
  pub copy_loop-take :
      (n : ℕ) (src : List B) (dst : List A)
      → n ≤ length src
      → n ≤ length dst
      → copy_loop f n 0 src dst ≡ some (map f (take n src) ++ drop n dst)
  copy_loop-take n src dst p q =
      let same : 0 + n ≡ n = omega arith in
      copy_loop_from n 0 src dst (rw same p) (rw same q) ∙ rw same

  pub take-take : (n m : ℕ) (src : List B) → n ≤ m → take n (take m src) ≡ take n src
  take-take zero m src h = refl
  take-take (suc n) zero src h = absurd (omega arith)
  take-take (suc n) (suc m) [] h = refl
  take-take (suc n) (suc m) (x ∷ src) h = ap (λ ys. x ∷ ys) (take-take n m src (omega arith))

  pub map-take : (n : ℕ) (src : List B) → map f (take n src) ≡ take n (map f src)
  map-take zero src = refl
  map-take (suc n) [] = refl
  map-take (suc n) (x ∷ src) = ap (λ ys. f x ∷ ys) (map-take n src)

  ltb-min : (n m : ℕ) → ltb (min n m) m ≡ ltb n m
  ltb-min n m = ground arith

  -- A query that answers by the loop, over the first `count` elements of an array.
  pub loop-Enumerates :
      (count : ℕ) (src : List B) (query : Query A)
      → count ≤ length src
      → ((n : ℕ) → query n none ≡ some (success, count, none))
      → ((n : ℕ) (dst : List A)
          → query n (some dst) ≡ (
              copy_loop f (min n count) 0 src dst >>= λ dst'.
              some (
                (if ltb (min n count) count then incomplete else success),
                min n count,
                some dst',
              )))
      → Enumerates (map f (take count src)) query
  loop-Enumerates count src query fits alone filled = record {
    counts = λ n. alone n ∙ rw size;
    fills = λ n dst room. rw size (
        filled n dst
        ∙ rw (
          copy_loop-take (min n count) src dst (omega arith) (rw size at room),
          ltb-min n count,
          ← map-take (min n count) (take count src),
          take-take (min n count) count src (omega arith),
        ));
  }
    where
      size : length (map f (take count src)) ≡ count
      size = length-map f (take count src) ∙ length-take count src ∙ omega arith

module _ {A : Type 0} where
  -- A query that answers by `memcpy`, over the first `count` elements of an array.
  pub memcpy-Enumerates :
      (count : ℕ) (src : List A) (query : Query A)
      → count ≤ length src
      → ((n : ℕ) → query n none ≡ some (success, count, none))
      → ((n : ℕ) (dst : List A)
          → query n (some dst) ≡ (
              memcpy (min n count) src dst >>= λ dst'.
              some (
                (if ltb (min n count) count then incomplete else success),
                min n count,
                some dst',
              )))
      → Enumerates (take count src) query
  memcpy-Enumerates count src query fits alone filled = record {
    counts = λ n. alone n ∙ rw size;
    fills = λ n dst room. rw size (
        filled n dst
        ∙ rw (
          memcpy-take (min n count) src dst (omega arith) (rw size at room),
          ltb-min (λ (x : A). x) n count,
          take-take (λ (x : A). x) (min n count) count src (omega arith),
        ));
  }
    where
      size : length (take count src) ≡ count
      size = length-take count src ∙ omega arith
