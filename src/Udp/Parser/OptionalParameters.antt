-- ===== src/Udp/Parser/OptionalParameters.antt =====
-- The optional parameters of a UDP announce (handleOptionalParameters of frontend/udp/parser.go).
use chihaya.Base.{
  ℕ, zero, suc, ◌≤◌, ◌<◌, ltb, ◌≡◌, ◌≢◌, refl, ap, sym, ◌∙◌, Bytes, length, length-append,
  length-drop, take, drop, take-append, drop-append, List, [], ◌∷◌, ◌++◌, append-nil, append_assoc,
  false, ok, panic, arith,
}
use chihaya.Bittorrent.Params.{parse_url_data}
use chihaya.Udp.Parser.{read_options, handle_optional_parameters}

-- URL data in chunks of less than 256 bytes, with their option codes, as BEP 41 writes them.
abbrev pub url_data_options : List Bytes → Bytes
url_data_options [] = []
url_data_options (c ∷ cs) = 2 ∷ length c ∷ c ++ url_data_options cs

abbrev pub concat : List Bytes → Bytes
concat [] = []
concat (c ∷ cs) = c ++ concat cs

-- With as much fuel as the packet has bytes the loop ends without a panic, whatever the packet.
pub read_options-no_panic :
    (fuel : ℕ) (b buf : Bytes) → length b ≤ fuel → read_options fuel b buf ≢ panic
unfolding read_options
read_options-no_panic fuel [] buf h = ground arith
read_options-no_panic zero (o ∷ rest) buf h = absurd (omega arith)
read_options-no_panic (suc fuel) (o ∷ []) buf h =
    ground (arith, read_options-no_panic fuel [] buf (omega arith))
read_options-no_panic (suc fuel) (o ∷ len ∷ body) buf h = ground (
  arith,
  read_options-no_panic fuel (len ∷ body) buf (omega arith),
  read_options-no_panic fuel (drop len body) (buf ++ take len body)
      (omega (arith, length-drop len body)),
)

read_options-chunks :
    (fuel : ℕ) (cs : List Bytes) (end buf : Bytes)
    → length (url_data_options cs) < fuel
    → read_options fuel (url_data_options cs ++ 0 ∷ end) buf ≡ ok (buf ++ concat cs)
unfolding read_options
read_options-chunks zero cs end buf h = absurd (omega arith)
read_options-chunks (suc fuel) [] end buf h = ap ok (sym (append-nil buf))
read_options-chunks (suc fuel) (c ∷ cs) end buf h =
    let rest : Bytes = url_data_options cs ++ 0 ∷ end in
    let t : take (length c) (c ++ rest) ≡ c = take-append c rest (length c) refl in
    let d : drop (length c) (c ++ rest) ≡ rest = drop-append c rest (length c) refl in
    let fits : ltb (length (c ++ rest)) (length c) ≡ false = ground (arith, length-append c rest) in
    let again : read_options fuel rest (buf ++ c) ≡ ok ((buf ++ c) ++ concat cs) =
      read_options-chunks fuel cs end (buf ++ c)
        (omega (arith, length-append c (url_data_options cs))) in
    rw (append_assoc c (url_data_options cs) (0 ∷ end), fits, t, d)
      (again ∙ ap ok (append_assoc buf c (concat cs)))

-- URL data that come in any number of chunks, each behind its option code and its length, are
-- parsed as one text, whatever follows the end of the options.
pub handle_optional_parameters-chunks :
    (cs : List Bytes) (end : Bytes)
    → handle_optional_parameters (url_data_options cs ++ 0 ∷ end) ≡ parse_url_data (concat cs)
unfolding handle_optional_parameters
handle_optional_parameters-chunks cs end =
    let l : length (url_data_options cs) < length (url_data_options cs ++ 0 ∷ end) =
      omega (arith, length-append (url_data_options cs) (0 ∷ end)) in
    simp (read_options-chunks _ cs end [] l)
