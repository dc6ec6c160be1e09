-- ===== src/Http/Bencode/Termination.antt =====
-- The decoder of frontend/http/bencode comes to an end on every input.
use chihaya.Base.{
  ℕ, zero, suc, ◌+◌, ◌<◌, ◌≤◌, ◌==◌, ◌^◌, leb, ltb, ◌≡◌, ◌≢◌, refl, Bytes, [], ◌∷◌, length,
  length-drop, Option, none, some, Bool, true, false, ℤ, pos, negsuc, parse_int, Result, ok, err,
  ◌>>=◌, arith, Bool-cases, inl, inr,
}
use chihaya.Bittorrent.Params.{cut}
use chihaya.Http.Bencode.{
  Value, byte_slice, text, texts, int, uint, duration, list, dict, unsupported, Fields, end,
}
use chihaya.Http.Bencode.Decoder.{
  Reader, filled, one_less, behind, read_slice, take_bytes, read_into, err_out_of_fuel, parsed,
  terminated, read_int, read_terminated_int, or_unknown, read_bytes, read_text, put, key_of,
  unmarshal, read_list, read_dict, unmarshal_bytes,
}

-- The fuel was enough, and fewer than `n` bytes are left.
abbrev Settled : {A : Type 0} → ℕ → Result (A × Reader) → Type 0
Settled n (ok x) = length x.1.0 < n
Settled n (err e) = e ≢ err_out_of_fuel
Settled n Result.panic = Unit {0}

>>=-Settled :
    {A B : Type 0} (n k : ℕ) (m : Result (A × Reader)) (f : A × Reader → Result (B × Reader))
    → Settled n m
    → ((x : A × Reader) → length x.1.0 < n → Settled k (f x))
    → Settled k (m >>= f)
>>=-Settled n k (ok x) f s g = g x s
>>=-Settled n k (err e) f s g = s
>>=-Settled n k Result.panic f s g = tt

cut_shorter :
    (t : ℕ) (s rest : Bytes) → (cut (λ x. x == t) s).1 ≡ some rest → length rest < length s
unfolding cut
cut_shorter t [] rest h = cc
cut_shorter t (c ∷ s) rest h = ground (arith, cut_shorter t s rest)

parsed-Settled :
    (o : Option ℤ) (rest : Bytes) (b n : ℕ)
    → length rest < n
    → Settled n (parsed o >>= λ z. ok (z, (rest, b)))
parsed-Settled none rest b n h = λ e. cc
parsed-Settled (some z) rest b n h = h

read_slice-Settled :
    (s rest : Bytes) (o : Option ℕ) (n : ℕ) → length rest < n → Settled n (read_slice s rest o)
unfolding read_int
read_slice-Settled s rest none n h = λ e. cc
read_slice-Settled [] rest (some b) n h = λ e. cc
read_slice-Settled (c ∷ s) rest (some b) n h = parsed-Settled (parse_int (c ∷ s)) rest b n h

terminated-Settled :
    (r : Reader) (s : Bytes) (o : Option Bytes) (n : ℕ)
    → ((rest : Bytes) → o ≡ some rest → length rest < n)
    → Settled n (terminated r s o)
terminated-Settled r s none n h = elim (Bool-cases (ltb (length r.0) 4096)) [
  | inl e ↦ rw e (λ q. cc)
  | inr e ↦ rw e (λ q. cc)
]
terminated-Settled r s (some rest) n h =
    read_slice-Settled s rest (behind (length r.0) r.1 (length s)) n (h rest refl)

read_terminated_int-Settled : (r : Reader) (t : ℕ) → Settled (length r.0) (read_terminated_int r t)
unfolding read_terminated_int
read_terminated_int-Settled r t =
    terminated-Settled r (cut (λ x. x == t) r.0).0 (cut (λ x. x == t) r.0).1 (length r.0)
      (cut_shorter t r.0)

or_unknown-Settled : (n : ℕ) (m : Result (ℤ × Reader)) → Settled n m → Settled n (or_unknown m)
or_unknown-Settled n (ok x) h = h
or_unknown-Settled n (err e) h = λ e. cc
or_unknown-Settled n Result.panic h = tt

take_bytes-Settled :
    (k : ℕ) (s : Bytes) (available left n : ℕ)
    → length s < n
    → Settled n (take_bytes k s available left)
take_bytes-Settled k s available left n h = elim (Bool-cases (leb k available)) [
  | inl e ↦ rw e (omega (arith, length-drop k s))
  | inr e ↦ rw e (λ q. cc)
]

read_into-Settled : (k : ℕ) (r : Reader) (n : ℕ) → length r.0 < n → Settled n (read_into k r)
unfolding read_into
read_into-Settled zero r n h = h
read_into-Settled (suc k) ([], b) n h = λ e. cc
read_into-Settled (suc k) (c ∷ s, zero) n h = elim (Bool-cases (leb 4096 (suc k))) [
  | inl e ↦ rw (e, read_into) (take_bytes-Settled (suc k) (c ∷ s) _ _ n h)
  | inr e ↦ rw (e, read_into) (take_bytes-Settled (suc k) (c ∷ s) _ _ n h)
]
read_into-Settled (suc k) (c ∷ s, suc b) n h = take_bytes-Settled (suc k) (c ∷ s) _ _ n h

read_bytes-Settled : (z : ℤ) (r : Reader) (n : ℕ) → length r.0 < n → Settled n (read_bytes z r)
unfolding read_bytes
read_bytes-Settled (negsuc k) r n h = tt
read_bytes-Settled (pos k) r n h = elim (Bool-cases (ltb (2 ^ 48) k)) [
  | inl e ↦ rw e tt
  | inr e ↦ rw e (read_into-Settled k r n h)
]

read_text-Settled : (r : Reader) → Settled (length r.0) (read_text r)
unfolding read_text
read_text-Settled r =
    >>=-Settled (length r.0) (length r.0) (or_unknown (read_terminated_int r b':')) _
      (or_unknown-Settled (length r.0) (read_terminated_int r b':')
        (read_terminated_int-Settled r b':'))
      (λ x h. read_bytes-Settled x.0 x.1 (length r.0) h)

weaken : {A : Type 0} (n k : ℕ) (m : Result (A × Reader)) → n ≤ k → Settled n m → Settled k m
weaken n k (ok x) h s = omega arith
weaken n k (err e) h s = s
weaken n k Result.panic h s = tt

if-Settled :
    {A : Type 0} (n : ℕ) (b : Bool) (m k : Result (A × Reader))
    → Settled n m
    → Settled n k
    → Settled n (elim b [ true ↦ m | false ↦ k ])
if-Settled n true m k h l = h
if-Settled n false m k h l = l

key_of-Settled :
    {A : Type 0} (v : Value) (n : ℕ) (k : Bytes → Result (A × Reader))
    → ((key : Bytes) → Settled n (k key))
    → Settled n (key_of v >>= k)
key_of-Settled (text x) n k h = h x
key_of-Settled (byte_slice x) n k h = λ e. cc
key_of-Settled (texts x) n k h = λ e. cc
key_of-Settled (int x) n k h = λ e. cc
key_of-Settled (uint x) n k h = λ e. cc
key_of-Settled (duration x) n k h = λ e. cc
key_of-Settled (list x) n k h = λ e. cc
key_of-Settled (dict x) n k h = λ e. cc
key_of-Settled (unsupported x) n k h = λ e. cc

mutual
  unfolding unmarshal

  unmarshal-Settled :
      (fuel : ℕ) (r : Reader)
      → length r.0 + length r.0 < fuel
      → Settled (length r.0) (unmarshal fuel r)
  unmarshal-Settled zero r h = absurd (omega arith)
  unmarshal-Settled (suc fuel) ([], b) h = λ e. cc
  unmarshal-Settled (suc fuel) (c ∷ s, b) h =
      let all = filled (suc (length s)) b in
      let next : Reader = (s, one_less all) in
      if-Settled (suc (length s)) (c == b'i') _ _
        (>>=-Settled (length s) (suc (length s)) (read_terminated_int next b'e') _
          (read_terminated_int-Settled next b'e') (λ x l. omega arith))
        (if-Settled (suc (length s)) (c == b'l') _ _
          (>>=-Settled (length s) (suc (length s)) (read_list fuel next) _
            (read_list-Settled fuel next (omega arith)) (λ x l. omega arith))
          (if-Settled (suc (length s)) (c == b'd') _ _
            (>>=-Settled (length s) (suc (length s)) (read_dict fuel end next) _
              (read_dict-Settled fuel end next (omega arith)) (λ x l. omega arith))
            (read_text-Settled (c ∷ s, all))))

  read_list-Settled :
      (fuel : ℕ) (r : Reader)
      → length r.0 + length r.0 + 1 < fuel
      → Settled (length r.0) (read_list fuel r)
  read_list-Settled zero r h = absurd (omega arith)
  read_list-Settled (suc fuel) ([], b) h = λ e. cc
  read_list-Settled (suc fuel) (c ∷ s, b) h =
      let all = filled (suc (length s)) b in
      if-Settled (suc (length s)) (c == b'e') _ _ (omega arith) (
        >>=-Settled (suc (length s)) (suc (length s)) (unmarshal fuel (c ∷ s, all)) _
          (unmarshal-Settled fuel (c ∷ s, all) (omega arith))
          (λ x l.
            >>=-Settled (length x.1.0) (suc (length s)) (read_list fuel x.1) _
              (read_list-Settled fuel x.1 (omega arith)) (λ y k. omega arith)))

  read_dict-Settled :
      (fuel : ℕ) (acc : Fields) (r : Reader)
      → length r.0 + length r.0 + 1 < fuel
      → Settled (length r.0) (read_dict fuel acc r)
  read_dict-Settled zero acc r h = absurd (omega arith)
  read_dict-Settled (suc fuel) acc ([], b) h = λ e. cc
  read_dict-Settled (suc fuel) acc (c ∷ s, b) h =
      let all = filled (suc (length s)) b in
      if-Settled (suc (length s)) (c == b'e') _ _ (omega arith) (
        >>=-Settled (suc (length s)) (suc (length s)) (unmarshal fuel (c ∷ s, all)) _
          (unmarshal-Settled fuel (c ∷ s, all) (omega arith))
          (λ x l. key_of-Settled x.0 (suc (length s)) _ (λ key.
            >>=-Settled (length x.1.0) (suc (length s)) (unmarshal fuel x.1) _
              (unmarshal-Settled fuel x.1 (omega arith))
              (λ y k.
                weaken (length y.1.0) (suc (length s)) (read_dict fuel (put key y.0 acc) y.1)
                  (omega arith) (read_dict-Settled fuel (put key y.0 acc) y.1 (omega arith))))))

first-ne :
    (n : ℕ) (m : Result (Value × Reader)) → Settled n m → (m >>= λ r. ok r.0) ≢ err err_out_of_fuel
first-ne n (ok x) h = λ e. cc
first-ne n (err e) h = λ q. h cc
first-ne n Result.panic h = λ e. cc

-- On every input the decoder comes to an end: it never runs out of fuel.
pub unmarshal_bytes_terminates : (buf : Bytes) → unmarshal_bytes buf ≢ err err_out_of_fuel
unfolding unmarshal_bytes
unmarshal_bytes_terminates buf =
    first-ne (length buf) (unmarshal (suc (length buf + length buf)) (buf, 0))
      (unmarshal-Settled (suc (length buf + length buf)) (buf, 0) (omega arith))
