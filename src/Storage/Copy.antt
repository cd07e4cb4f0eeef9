-- ===== src/Storage/Copy.antt =====
-- copyData of src/storage/diskcache/shareddiskcache.cpp: a device is read by chunks and written to
-- another. The loop is on fuel; one more than the length of the data is enough.
use notekeeper_open.Base.{
  ℕ, zero, suc, ◌+◌, ◌<◌, ◌≤◌, ◌≡◌, ◌⊎◌, refl, sym, ap, subst, ◌∙◌, Bool, true, false, ◌==◌, Option,
  none, some, [], ◌∷◌, ◌++◌, QString, arith, take, drop, length, ltb, is_empty, if◌then◌else◌,
  Bool-cases, ==_iff, inl, inr,
}

-- `negsuc n` is -(n + 1).
pub data ℤ : Type 0 where
  pos : ℕ → ℤ
  negsuc : ℕ → ℤ

-- What the two devices do in the rounds of one copy: of how many bytes at most a read consists, and
-- how many bytes of its chunk a write takes; none where QIODevice answers -1. A device may do
-- something else in each round.
pub record Transfer : Type 0 where
  pub reads : ℕ → Option ℕ
  pub writes : ℕ → QString → Option ℕ

-- The bytes of a read into a buffer of `size` bytes; none where it fails, as at the end of the data.
unfoldable pub read_chunk : Option ℕ → ℕ → QString → QString
read_chunk none size src = []
read_chunk (some n) size src = take (if ltb n size then n else size) src

-- What a write brings into the device, whether that is the whole chunk, and the count after it.
unfoldable pub accepted : Option ℕ → QString → QString
accepted none chunk = []
accepted (some w) chunk = take w chunk

unfoldable pub is_whole : Option ℕ → QString → Bool
is_whole none chunk = false
is_whole (some w) chunk = w == length chunk

abbrev pub before : ℕ → ℤ
before zero = negsuc 0
before (suc n) = pos n

unfoldable pub add_written : ℕ → Option ℕ → ℤ
add_written copied none = before copied
add_written copied (some w) = pos (copied + w)

-- What was written so far, and bytesCopied.
unfoldable pub copy_loop : ℕ → ℕ → Transfer → ℕ → QString → QString → ℕ → Option (QString × ℤ)
unfolding read_chunk accepted is_whole add_written
copy_loop zero size t round src dst copied = none
copy_loop (suc fuel) size t round src dst copied =
    let chunk = read_chunk (t.reads round) size src in
    let written = t.writes round chunk in
    let longer = dst ++ accepted written chunk in
    let rest =
      copy_loop fuel size t (suc round) (drop (length chunk) src) longer (copied + length chunk) in
    if is_empty chunk
    then some (dst, pos copied)
    else if is_whole written chunk
    then rest
    else some (longer, add_written copied written)

-- The buffer holds 2 << 15 bytes.
unfoldable pub copy_data : Transfer → QString → Option (QString × ℤ)
unfolding copy_loop
copy_data t src = copy_loop (length src + 1) 65536 t 0 src [] 0

pub take_all : (xs : QString) → take (length xs) xs ≡ xs
take_all [] = refl
take_all (x ∷ xs) = ap (◌∷◌ x) (take_all xs)

pub append_assoc : (xs ys zs : QString) → (xs ++ ys) ++ zs ≡ xs ++ (ys ++ zs)
append_assoc [] ys zs = refl
append_assoc (x ∷ xs) ys zs = ap (◌∷◌ x) (append_assoc xs ys zs)

pub append_nil : (xs : QString) → xs ++ [] ≡ xs
append_nil [] = refl
append_nil (x ∷ xs) = ap (◌∷◌ x) (append_nil xs)

take-append_more : (c r : QString) (n : ℕ) → take (length c + n) (c ++ r) ≡ c ++ take n r
take-append_more [] r n = ap (λ (m : ℕ). take m r) (omega arith)
take-append_more (x ∷ c) r n =
    ap (λ (m : ℕ). take m (x ∷ c ++ r)) {y = suc (length c + n)} (omega arith)
    ∙ ap (◌∷◌ x) (take-append_more c r n)

take-append_less : (w : ℕ) (c r : QString) → w ≤ length c → take w (c ++ r) ≡ take w c
take-append_less zero c r h = refl
take-append_less (suc w) [] r h = absurd (omega arith)
take-append_less (suc w) (x ∷ c) r h = ap (◌∷◌ x) (take-append_less w c r (omega arith))

take-append-rest : (m : ℕ) (xs : QString) → take m xs ++ drop (length (take m xs)) xs ≡ xs
take-append-rest zero xs = refl
take-append-rest (suc m) [] = refl
take-append-rest (suc m) (x ∷ xs) = ap (◌∷◌ x) (take-append-rest m xs)

pub read_chunk-rest :
    (n : Option ℕ) (size : ℕ) (src : QString)
    → read_chunk n size src ++ drop (length (read_chunk n size src)) src ≡ src
unfolding read_chunk
read_chunk-rest none size src = refl
read_chunk-rest (some n) size src = take-append-rest (if ltb n size then n else size) src

pub length-append-text : (c r : QString) → length (c ++ r) ≡ length c + length r
length-append-text [] r = omega arith
length-append-text (x ∷ c) r = omega (arith, length-append-text c r)

pub full_length : (c : QString) → is_empty c ≡ false → 0 < length c
full_length [] h = cc
full_length (x ∷ c) h = omega arith

abbrev pub gives_nothing : Option ℕ → Bool
gives_nothing none = true
gives_nothing (some n) = n == 0

-- What stops a copy before the end of the data: a read that gives nothing, or a write that does not
-- take its whole chunk.
pub data IsStopped (t : Transfer) : Type 0 where
  read_nothing : (k : ℕ) → gives_nothing (t.reads k) ≡ true → IsStopped t
  write_cut : (k : ℕ) (chunk : QString) → is_whole (t.writes k chunk) chunk ≡ false → IsStopped t

empty_read :
    (n : Option ℕ) (k : ℕ) (src : QString)
    → is_empty (read_chunk n (suc k) src) ≡ true
    → (gives_nothing n ≡ true) ⊎ (0 ≡ length src)
unfolding read_chunk
empty_read none k src h = inl refl
empty_read (some n) k [] h = inr refl
empty_read (some zero) k (x ∷ src) h = inl refl
empty_read (some (suc n)) k (x ∷ src) h = ground (arith, h)

-- A run of the loop ends. What it has written is a beginning of the data, and its count is the length
-- of that, or one less where a write has failed; and it is all of the data, or the copy was stopped.
pub record IsCopied (t : Transfer) (src dst : QString) (copied : ℕ) (o : Option (QString × ℤ))
    : Type 0 where
  pub done : ℕ
  pub result : QString × ℤ
  pub ends : o ≡ some result
  pub within : done ≤ length src
  pub beginning : result.0 ≡ dst ++ take done src
  pub reason : (done ≡ length src) ⊎ IsStopped t
  pub counted : (result.1 ≡ pos (copied + done)) ⊎ (result.1 ≡ before (copied + done))

module _ (size : ℕ) (t : Transfer)
    (fair : (k : ℕ) (chunk : QString) (w : ℕ) → t.writes k chunk ≡ some w → w ≤ length chunk) where
  -- The loop stops after a write that was not whole.
  stopped-IsCopied :
      (c r dst : QString) (copied : ℕ) (written : Option ℕ)
      → ((w : ℕ) → written ≡ some w → w ≤ length c)
      → IsStopped t
      → IsCopied t
          (c ++ r)
          dst
          copied
          (some (dst ++ accepted written c, add_written copied written))
  unfolding accepted add_written
  stopped-IsCopied c r dst copied none h x = record {
    done = 0;
    result = (dst ++ [], before copied);
    ends = refl;
    reason = inr x;
    within = omega arith;
    beginning = refl;
    counted = inr (ap before (omega arith));
  }
  stopped-IsCopied c r dst copied (some w) h x = record {
    done = w;
    reason = inr x;
    result = (dst ++ take w c, pos (copied + w));
    ends = refl;
    within = omega (arith, h w refl, length-append-text c r);
    beginning = ap (◌++◌ dst) (sym (take-append_less w c r (h w refl)));
    counted = inl refl;
  }

  more-IsCopied :
      (c r dst : QString) (copied : ℕ) (o : Option (QString × ℤ))
      → IsCopied t r (dst ++ c) (copied + length c) o
      → IsCopied t (c ++ r) dst copied o
  more-IsCopied c r dst copied o h = record {
    done = length c + h.done;
    result = h.result;
    ends = h.ends;
    reason = elim h.reason [
      | inl e ↦ inl (omega (arith, e, length-append-text c r))
      | inr x ↦ inr x
    ];
    within = omega (arith, h.within, length-append-text c r);
    beginning =
        h.beginning
        ∙ append_assoc dst c (take h.done r)
        ∙ ap (◌++◌ dst) (sym (take-append_more c r h.done));
    counted = elim h.counted [
      | inl e ↦ inl (e ∙ ap pos (omega arith))
      | inr e ↦ inr (e ∙ ap before (omega arith))
    ];
  }

  accepted-whole :
      (written : Option ℕ) (c : QString) → is_whole written c ≡ true → accepted written c ≡ c
  unfolding accepted is_whole
  accepted-whole none c h = cc
  accepted-whole (some w) c h = ap (λ (m : ℕ). take m c) ((==_iff w (length c)).0 h) ∙ take_all c

  -- One round, for the chunk `c` that is read and the data `r` that is left.
  round-IsCopied :
      (round : ℕ) (c r dst : QString) (copied : ℕ) (rest : QString → Option (QString × ℤ))
      → is_empty c ≡ false
      → (is_whole (t.writes round c) c ≡ true
          → IsCopied t r (dst ++ c) (copied + length c) (rest (dst ++ c)))
      → IsCopied t (c ++ r) dst copied (
          if is_whole (t.writes round c) c
          then rest (dst ++ accepted (t.writes round c) c)
          else some (dst ++ accepted (t.writes round c) c, add_written copied (t.writes round c)))
  round-IsCopied round c r dst copied rest e h = elim (Bool-cases (is_whole (t.writes round c) c)) [
    | inl w ↦ rw (w, accepted-whole (t.writes round c) c w) (more-IsCopied c r dst copied _ (h w))
    | inr w ↦
        rw w
          (stopped-IsCopied c r dst copied (t.writes round c) (fair round c) (write_cut round c w))
  ]

  copy_loop-IsCopied :
      (fuel round : ℕ) (src dst : QString) (copied : ℕ)
      → length src < fuel
      → IsCopied t src dst copied (copy_loop fuel (suc size) t round src dst copied)
  unfolding copy_loop
  copy_loop-IsCopied zero round src dst copied h = absurd (omega arith)
  copy_loop-IsCopied (suc fuel) round src dst copied h =
      let c : QString = read_chunk (t.reads round) (suc size) src in
      let r : QString = drop (length c) src in
      let whole : c ++ r ≡ src = read_chunk-rest (t.reads round) (suc size) src in
      elim (Bool-cases (is_empty c)) [
        | inl e ↦ rw e (record {
          done = 0;
          reason = elim (empty_read (t.reads round) size src e) [
            | inl x ↦ inr (read_nothing round x)
            | inr x ↦ inl x
          ];
          result = (dst, pos copied);
          ends = refl;
          within = omega arith;
          beginning = sym (append_nil dst);
          counted = inl (ap pos (omega arith));
        })
        | inr e ↦ rw e (
            subst
              (λ (x : QString). IsCopied t x dst copied (
                if is_whole (t.writes round c) c
                then copy_loop fuel (suc size) t (suc round) r
                    (dst ++ accepted (t.writes round c) c) (copied + length c)
                else some
                    (dst ++ accepted (t.writes round c) c, add_written copied (t.writes round c))))
              whole
              (round-IsCopied round c r dst copied
                (λ (l : QString). copy_loop fuel (suc size) t (suc round) r l (copied + length c)) e
                (λ w.
                  copy_loop-IsCopied fuel (suc round) r (dst ++ c) (copied + length c)
                    (omega (arith, h, full_length c e, length-append-text c r, ap length whole)))))
      ]

pub copy_data-IsCopied :
    (t : Transfer) (src : QString)
    → ((k : ℕ) (chunk : QString) (w : ℕ) → t.writes k chunk ≡ some w → w ≤ length chunk)
    → IsCopied t src [] 0 (copy_data t src)
unfolding copy_data
copy_data-IsCopied t src fair =
    copy_loop-IsCopied 65535 t fair (length src + 1) 0 src [] 0 (omega arith)
