-- ===== src/Cache/File/RoundTrip.antt =====
-- From `add_cache` through `write_cache` and `read_cache` to `check_cache`.
use mathlib.Core.List.{append-nil, append_assoc}
use tcpreplay.Prelude.{
  ℕ, ◌+◌, ◌-◌, ◌*◌, ◌/◌, ◌^◌, ◌≤◌, ◌<◌, ◌≡◌, refl, List, [], ◌∷◌, ◌++◌, Option, some, none, arith,
  length, take, sym, ap₂, length-append, length-take, ap, ◌∙◌, u64, u32, get_or, get_or-append_left,
  get_or-append_right, get_or-take, inl, inr, ltb, Bool-cases,
}
use tcpreplay.Cache.{Block, Chain, check_cache, found}
use tcpreplay.Cache.Slots.{decode}
use tcpreplay.Cache.Blocks.{AllFull, IsValid, flatten, flat, count, length-flatten}
use tcpreplay.Cache.Blocks.Steps.{count?, IsValid?, entry?}
use tcpreplay.Cache.Blocks.Run.{
  Call, IsRecord, record_all, record_all-IsRecord, direction_at, decode-code_at, check_cache-agrees,
}
use tcpreplay.Cache.File.{
  Os, ok, write_blocks, write_cache, read_cache, header_of, used_bytes, comment_bytes,
}
use tcpreplay.Cache.File.Layout.{IsHonest, put_lem, read_cache-layout}

-- What the blocks put into the file: whole blocks, and the used bytes of the last.
unfoldable pub body_of : Option Chain → List ℕ
body_of none = []
body_of (some c) = flatten c.before ++ take (used_bytes c.last.packets) c.last.bytes

take_all : (xs : List ℕ) → take (length xs) xs ≡ xs
take_all [] = refl
take_all (x ∷ xs) = ap (λ ys. x ∷ ys) (take_all xs)

used_bytes_small : (p : ℕ) → p ≤ 1020 → u32 (used_bytes p) ≡ used_bytes p
used_bytes_small p h = ground arith

length-body_of : (c : Chain) → IsValid c → length (body_of (some c)) ≡ used_bytes (count c)
unfolding body_of
length-body_of c v = ground (
  arith,
  length-append (flatten c.before) (take (used_bytes c.last.packets) c.last.bytes),
  length-take (used_bytes c.last.packets) c.last.bytes,
  length-flatten c.before v.full,
  v.size,
  v.fits,
)

length-body_of? : (o : Option Chain) → IsValid? o → length (body_of o) ≡ used_bytes (count? o)
length-body_of? none v = unfold body_of in refl
length-body_of? (some c) v = length-body_of c v

-- The used bytes of the last block hold its packets.
get_or-body_of :
    (c : Chain) (j : ℕ)
    → j < length (flatten c.before) + used_bytes c.last.packets
    → get_or (body_of (some c)) j 0 ≡ get_or (flat c) j 0
unfolding body_of
get_or-body_of c j h = elim (Bool-cases (ltb j (length (flatten c.before)))) [
  | inl within ↦
      get_or-append_left (flatten c.before) _ j 0 (ground arith)
      ∙ sym (get_or-append_left (flatten c.before) c.last.bytes j 0 (ground arith))
  | inr beyond ↦
      let k : ℕ = j - length (flatten c.before) in
      let e : j ≡ length (flatten c.before) + k = ground arith in
      ap (λ n. get_or (flatten c.before ++ take (used_bytes c.last.packets) c.last.bytes) n 0) e
      ∙ get_or-append_right (flatten c.before) (take (used_bytes c.last.packets) c.last.bytes) k 0
      ∙ get_or-take (used_bytes c.last.packets) c.last.bytes k 0 (omega arith)
      ∙ sym (
          ap (λ n. get_or (flat c) n 0) e ∙ get_or-append_right (flatten c.before) c.last.bytes k 0)
]

check_cache-body_of :
    (o : Option Chain) (i : ℕ)
    → IsValid? o
    → i < count? o
    → check_cache (body_of o) (i + 1) ≡ found (decode (entry? o i))
check_cache-body_of none i v h = absurd (omega arith)
check_cache-body_of (some c) i v h =
    check_cache-agrees c (body_of (some c)) i v (ground (arith, length-body_of c v))
      (get_or-body_of c (i / 4) (ground (arith, length-flatten c.before v.full)))

whole_block :
    (b : Block)
    → length b.bytes ≡ 255
    → b.packets ≡ 1020
    → take (u32 (used_bytes b.packets)) b.bytes ≡ b.bytes
whole_block b l e =
    ap (λ k. take (u32 (used_bytes k)) b.bytes) e
    ∙ ap (λ k. take k b.bytes) (sym l)
    ∙ take_all b.bytes

module _ (os : Os) (honest : IsHonest os) where
  write_blocks_lem :
      (bs : List Block) (last : Block) (file : List ℕ) (p : ℕ)
      → AllFull bs
      → last.packets ≤ 1020
      → p + 1020 * length bs + last.packets < 2 ^ 64
      → write_blocks os (bs ++ (last ∷ [])) file p
        ≡ ok (
          file ++ (flatten bs ++ take (used_bytes last.packets) last.bytes),
          p + 1020 * length bs + last.packets,
        )
  unfolding write_blocks flatten
  write_blocks_lem [] last file p full fits small =
      rw
        (
          put_lem os honest file (take (u32 (used_bytes last.packets)) last.bytes),
          used_bytes_small last.packets fits,
        )
        (ap (λ n. ok (file ++ take (used_bytes last.packets) last.bytes, n)) (omega arith))
  write_blocks_lem (b ∷ bs) last file p full fits small =
      rw
        (
          put_lem os honest file (take (u32 (used_bytes b.packets)) b.bytes),
          whole_block b full.0 full.1,
          total,
        )
        (write_blocks_lem bs last (file ++ b.bytes) (p + 1020) full.2 fits (omega arith)
          ∙ ap₂ (λ f n. ok (f, n)) regroup (omega arith))
    where
      total : u64 (p + b.packets) ≡ p + 1020
      total = omega (arith, full.1)

      regroup :
          file ++ b.bytes ++ (flatten bs ++ take (used_bytes last.packets) last.bytes)
          ≡ file ++ (b.bytes ++ flatten bs ++ take (used_bytes last.packets) last.bytes)
      regroup = simp append_assoc

  -- The file and the result of `write_cache`.
  pub write_cache_lem :
      (o : Option Chain) (n : ℕ) (comment : Option (List ℕ))
      → IsValid? o
      → count? o < 2 ^ 64
      → write_cache os o n comment
        ≡ ok (header_of n (comment_bytes comment) ++ (comment_bytes comment ++ body_of o), count? o)
  unfolding write_cache body_of
  write_cache_lem none n none v h = rw (put_lem os honest [] (header_of n [])) refl
  write_cache_lem none n (some text) v h =
      rw (put_lem os honest [] (header_of n text), put_lem os honest (header_of n text) text)
        (ap (λ xs. ok (header_of n text ++ xs, 0)) (sym (append-nil text)))
  write_cache_lem (some c) n none v h = rw (put_lem os honest [] (header_of n [])) (
      write_blocks_lem c.before c.last (header_of n []) 0 v.full v.fits (omega arith)
      ∙ ap (λ k. ok (header_of n [] ++ body_of (some c), k)) (omega arith))
  write_cache_lem (some c) n (some text) v h =
      rw (put_lem os honest [] (header_of n text), put_lem os honest (header_of n text) text)
        (write_blocks_lem c.before c.last (header_of n text ++ text) 0 v.full v.fits (omega arith)
          ∙ ap (λ k. ok (header_of n text ++ (text ++ body_of (some c)), k)) (omega arith))

  -- A comment of at most 65534 bytes and fewer than 2 ^ 64 packets survive the file, on a disk that
  -- writes and reads all that it is asked: for every run of `add_cache` calls, `write_cache` returns
  -- the number of calls, `read_cache` of that file returns this number and the comment, and
  -- `check_cache` on the data that it read gives for the id of each packet on record the direction
  -- that its call asked for.
  pub cache_file_round_trip :
      (calls : List Call) (comment : Option (List ℕ)) (i : ℕ)
      → i < length calls
      → length calls < 2 ^ 64
      → length (comment_bytes comment) ≤ 65534
      → (file buffer : List ℕ) × (write_cache os (record_all calls) (length calls) comment
          ≡ ok (file, length calls))
        × (read_cache os (some file) ≡ ok (length calls, buffer, comment_bytes comment))
        × (check_cache buffer (i + 1) ≡ found (direction_at calls i))
  cache_file_round_trip calls comment i h many short = (
    header_of (length calls) (comment_bytes comment)
        ++ (comment_bytes comment ++ body_of (record_all calls)),
    body_of (record_all calls),
    write_cache_lem (record_all calls) (length calls) comment r.valid (rw r.counted many)
        ∙ ap
            (λ k. ok (
              header_of (length calls) (comment_bytes comment)
                  ++ (comment_bytes comment ++ body_of (record_all calls)),
              k,
            ))
            r.counted,
    read_cache-layout os honest (length calls) (comment_bytes comment) (body_of (record_all calls))
        many short (length-body_of? (record_all calls) r.valid ∙ ap used_bytes r.counted),
    check_cache-body_of (record_all calls) i r.valid (rw r.counted h)
        ∙ ap found (ap decode (r.entries i) ∙ decode-code_at calls i),
  )
    where
      r : IsRecord calls (record_all calls)
      r = record_all-IsRecord calls
