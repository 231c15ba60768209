-- ===== src/Cache/File/Layout.antt =====
-- Reading a laid-out cache file: header, comment and data come back as they were put in.
use tcpreplay.Prelude.{
  ℕ, ◌+◌, ◌*◌, ◌/◌, ◌%◌, ◌^◌, ◌≤◌, ◌<◌, ◌≡◌, refl, List, [], ◌++◌, some, min, arith, length, drop,
  sym, take-append, drop-append, length-append, ap, ◌∙◌, ◌==◌, true, false, ltb,
}
use mathlib.Core.List.{append-nil}
use tcpreplay.Libc.{strtol10}
use tcpreplay.Cache.File.{
  Os, ok, put, get, read_cache, header_of, header_size, used_bytes, get_be16, get_be64, bytes_for,
  same_version,
}

-- A disk with room, and a file that `read` delivers as far as it goes.
pub record IsHonest (os : Os) : Type 0 where
  pub writes_all : (file buffer : List ℕ) → os.write file buffer ≡ some (length buffer)
  pub reads_all : (rest : List ℕ) (n : ℕ) → os.read rest n ≡ some (min n (length rest))

module _ (os : Os) (honest : IsHonest os) where
  pub put_lem : (file buffer : List ℕ) → put os file buffer ≡ ok (file ++ buffer)
  unfolding put
  put_lem file buffer = rw (honest.writes_all file buffer) (rw (self (length buffer)))
    where
      self : (n : ℕ) → (n == n) ≡ true
      self n = ground arith

  pub get_lem : (xs ys : List ℕ) → get os (xs ++ ys) (length xs) ≡ ok (xs, ys)
  unfolding get
  get_lem xs ys =
      rw (honest.reads_all (xs ++ ys) (length xs), enough)
        (rw (take-append xs ys, drop-append xs ys))
    where
      enough : min (length xs) (length (xs ++ ys)) ≡ length xs
      enough = omega (arith, length-append xs ys)

  header-read :
      (n : ℕ) (c rest : List ℕ)
      → get os (header_of n c ++ rest) header_size ≡ ok (header_of n c, rest)
  header-read n c rest = get_lem (header_of n c) rest

  be16-read : (x : ℕ) → x < 2 ^ 16 → x / 256 % 256 * 256 + x % 256 ≡ x
  be16-read x h = omega arith

  header-num_packets : (n : ℕ) (c : List ℕ) → n < 2 ^ 64 → get_be64 (header_of n c) 12 ≡ n
  header-num_packets n c h = omega arith

  header-comment_len :
      (n : ℕ) (c : List ℕ) → length c < 65535 → get_be16 (header_of n c) 22 ≡ length c
  header-comment_len n c h = omega arith

  header-version :
      (n : ℕ) (c : List ℕ) → same_version (strtol10 (drop 8 (header_of n c))).value ≡ true
  unfolding same_version strtol10
  header-version n c = refl

  header-stride : (n : ℕ) (c : List ℕ) → get_be16 (header_of n c) 20 ≡ 4
  header-stride n c = refl

  get-all : (body : List ℕ) (k : ℕ) → length body ≡ k → get os body k ≡ ok (body, [])
  get-all body k e =
      ap (λ j. get os body j) (sym e)
      ∙ ap (λ xs. get os xs (length body)) (sym (append-nil body))
      ∙ get_lem body []

  eq_self : (n : ℕ) → (n == n) ≡ true
  eq_self n = ground arith

  -- The file that starts with this header and comment and ends with this much data is accepted.
  pub read_cache-layout :
      (n : ℕ) (comment body : List ℕ)
      → n < 2 ^ 64
      → length comment ≤ 65534
      → length body ≡ used_bytes n
      → read_cache os (some (header_of n comment ++ (comment ++ body))) ≡ ok (n, body, comment)
  unfolding read_cache
  read_cache-layout n comment body hn hc hb = rw (
    header-read n comment (comment ++ body),
    header-comment_len n comment (omega arith),
    short,
    get_lem comment body,
    eq_self (length comment),
    header-num_packets n comment hn,
    sized,
    get-all body (used_bytes n) hb,
    hb,
    eq_self (used_bytes n),
  )
    where
      short : ltb 65534 (length comment) ≡ false
      short = ground arith

      sized : bytes_for n (get_be16 (header_of n comment) 20) ≡ used_bytes n
      sized = ground arith
