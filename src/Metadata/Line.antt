-- ===== src/Metadata/Line.antt =====
-- src/joplin_md_sync/metadata.py: which characters a header line lacks, and where its parts stand.
use joplin_md_sync.Base.{
  ℕ, zero, suc, ◌-◌, ◌/◌, ◌%◌, ◌≡◌, ◌≢◌, refl, sym, ◌<◌, true, List, [], ◌∷◌, ◌++◌, nat_eq, list_eq,
  arith,
}
use joplin_md_sync.Base.Text.{
  Text, text, length, replace_after, Lacks, Lacks-append, append_assoc, length-append, take-append,
  drop-append,
}
use joplin_md_sync.Json.{array_of, hex_digit, escape_char, escape, quoted, dumps, dump_items}
use joplin_md_sync.Json.Mask.{mask}
use joplin_md_sync.Metadata.{partition, ends_with, header_prefix, header_suffix, payload_in}

module _ (x : ℕ) (low : x < 32) where
  hex_digit-ne : (n : ℕ) → hex_digit n ≢ x
  unfolding hex_digit
  hex_digit-ne n e = ground arith

  escape_char-Lacks : (c : ℕ) → Lacks x (escape_char c)
  unfolding escape_char
  escape_char-Lacks c = ground (arith, hex_digit-ne (c / 16), hex_digit-ne (c % 16))

  escape-Lacks : (s : Text) → Lacks x (escape s)
  unfolding escape
  escape-Lacks [] = tt
  escape-Lacks (c ∷ s) =
      Lacks-append x (escape_char c) (escape s) (escape_char-Lacks c) (escape-Lacks s)

  pub quoted-Lacks : (s : Text) → Lacks x (quoted s)
  unfolding quoted
  quoted-Lacks s =
      (omega arith, Lacks-append x (escape s) (34 ∷ []) (escape-Lacks s) (omega arith, tt))

  pub dump_items-Lacks : (ts : List Text) → Lacks x (dump_items (array_of ts))
  unfolding dumps array_of
  dump_items-Lacks [] = (omega arith, tt)
  dump_items-Lacks (t ∷ []) = Lacks-append x (quoted t) (93 ∷ []) (quoted-Lacks t) (omega arith, tt)
  dump_items-Lacks (t ∷ u ∷ ts) =
      Lacks-append x (quoted t) _ (quoted-Lacks t) (omega arith, dump_items-Lacks (u ∷ ts))

  replace_after-Lacks :
      (k : ℕ) (s : Text) → Lacks x s → Lacks x (replace_after (text "-->") (text "--\\u003e") k s)
  unfolding replace_after text
  replace_after-Lacks k [] h = tt
  replace_after-Lacks (suc k) (c ∷ s) h = replace_after-Lacks k s h.1
  replace_after-Lacks zero (c ∷ s) h =
      ground (arith, replace_after-Lacks 2 s h.1, replace_after-Lacks 0 s h.1)

  pub mask-Lacks : (s : Text) → Lacks x s → Lacks x (mask s)
  unfolding mask
  mask-Lacks s h = replace_after-Lacks 0 s h

pub partition-append : (s t : Text) → Lacks 10 s → partition (s ++ (10 ∷ t)) ≡ (s, t)
unfolding partition nat_eq
partition-append [] t h = refl
partition-append (c ∷ s) t h = ground (arith, partition-append s t h.1)

pub ends_with-append : (s p : Text) → ends_with (s ++ p) p ≡ true
unfolding ends_with
ends_with-append [] [] = ground arith
ends_with-append [] (c ∷ p) = ground arith
ends_with-append (c ∷ s) p = ground (arith, ends_with-append s p)

-- The payload stands between the prefix and the suffix.
pub payload_in-between : (p : Text) → payload_in (header_prefix ++ (p ++ header_suffix)) ≡ p
unfolding payload_in
payload_in-between p =
    let front = header_prefix ++ p in
    let whole = append_assoc header_prefix p header_suffix in
    let size : length (front ++ header_suffix) - length header_suffix ≡ length front =
      omega (arith, length-append front header_suffix) in
    rw (sym whole, size, take-append front header_suffix) (drop-append header_prefix p)
