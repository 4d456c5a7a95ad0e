-- ===== src/Market/Query/Key.antt =====
-- Query keys fit their column.
use Prim.Native.String.{◌++◌, count}
use text.Mathlib.TextLemmas.{length-append, length-cons}
use rafuk.Base.{
  ℕ, zero, suc, ◌≤◌, ◌-◌, ◌≡◌, String, inl, inr, Bool-cases, Bool, true, false, arith, leb,
}
use rafuk.Base.Text.{truncate}
use rafuk.Market.TextLib.{TextLib}
use rafuk.Market.Query.{
  build_query_key, long_key, prefix_of, normalize_search_text, query_key_max_length,
}

count-truncate-le : (n : ℕ) (s : String) → count (truncate n s) ≤ n
unfolding truncate
count-truncate-le zero s = omega arith
count-truncate-le (suc n) String.[] = omega arith
count-truncate-le (suc n) (String.◌∷◌ c s) =
    omega (arith, length-cons c (truncate n s), count-truncate-le n s)

count-prefix_of-le : (lib : TextLib) (b : Bool) → count (prefix_of lib b) ≤ 8
unfolding prefix_of
count-prefix_of-le lib true = omega arith
count-prefix_of-le lib false = omega arith

module _ (lib : TextLib) where
  count-long_key-le :
      (prefix normalized : String)
      → count prefix ≤ 8
      → count (lib.short_digest normalized) ≡ 12
      → ((s : String) → count (lib.rstrip s) ≤ count s)
      → count (long_key lib prefix normalized) ≤ query_key_max_length
  unfolding long_key
  count-long_key-le prefix normalized p digits strips =
      let digest = lib.short_digest normalized in
      let room = query_key_max_length - count prefix - count digest - 1 in
      let part = truncate room normalized in
      omega (
        arith,
        length-append prefix (lib.rstrip part ++ ("#" ++ digest)),
        length-append (lib.rstrip part) ("#" ++ digest),
        length-append "#" digest,
        strips part,
        count-truncate-le room normalized,
      )

  -- A query key has at most 255 characters, if stripping makes no text longer and the digest has
  -- twelve characters.
  pub count-build_query_key-le :
      (query : String) (strict_search : Bool)
      → ((s : String) → count (lib.rstrip s) ≤ count s)
      → ((s : String) → count (lib.short_digest s) ≡ 12)
      → count (build_query_key lib query strict_search) ≤ query_key_max_length
  unfolding build_query_key
  count-build_query_key-le query strict_search strips digits =
      let normalized = normalize_search_text lib query in
      let prefix = prefix_of lib strict_search in
      elim (Bool-cases (leb (count (prefix ++ normalized)) query_key_max_length)) [
        | inl short ↦ rw short (ground arith)
        | inr long ↦ rw long (
            count-long_key-le prefix normalized (count-prefix_of-le lib strict_search)
              (digits normalized) strips)
      ]
