-- ===== src/Tests/Pco.antt =====
-- internal/pco at small inputs: pages of its test data (internal/pco/testdata/modes.json).
use vortex_go.Base.{
  ℕ, ◌≢◌, some, get_elem?, ◌*◌, ◌^◌, ◌≤◌, ◌≡◌, refl, false, none, List, [], ◌∷◌, map, length, arith,
}
use vortex_go.Outcome.{ok}
use vortex_go.Outcome.Sound.{Sound}
use vortex_go.Outcome.Always.{Always}
use vortex_go.Schema as Schema
use vortex_go.Schema.{Kind}
use vortex_go.Encoding.Proto.{Proto, uvarint}
use vortex_go.Encoding.Binary.Pco.{chunk_counts}
use vortex_go.Encoding.Binary.PcoChunks.Totals.{pco_output_lem}
use vortex_go.Pco.Words.{Floats, flip}
use vortex_go.Pco.Reader.{Reader, read}
use vortex_go.Pco.Reader.Stream.{view, take_bits, IsWithin, read-take_bits}
use vortex_go.Pco.Table.{AnsNode, Bin, sum_weights, spread, place, stride}
use vortex_go.Pco.Table.Slots.{symbols, slot, symbol_at, spread_lem}
use vortex_go.Pco.Latent.{parse_latent}
use vortex_go.Pco.Latent.Closed.{IsLatent, parse_latent-IsLatent}
use vortex_go.Pco.Page.{read_nodes}
use vortex_go.Pco.Page.Nodes.{States, read_nodes_lem}
use vortex_go.Pco.Mode.{consecutive}
use vortex_go.Pco.Restore.{look_back, convolve, restore}
use vortex_go.Pco.Restore.Convolution.{conv_deltas, convolve-conv_deltas}
use vortex_go.Pco.Restore.Consecutive.{deltas, moments, restore-deltas}
use vortex_go.Pco.Restore.Lookback.{look_deltas, look_back-look_deltas}
use vortex_go.Pco.Decode.{decode}
use vortex_go.Pco.Decode.Packed.{AreBytes, sum_all, count_all, decode-AreBytes}

-- Floating point that no run of these tests needs.
abbrev pub no_floats : Floats
no_floats = record {
  Float = ℕ;
  from_bits16 = λ x. x;
  from_bits32 = λ x. x;
  from_bits64 = λ x. x;
  to_bits16 = λ x. x;
  to_bits32 = λ x. x;
  to_bits64 = λ x. x;
  mul16 = λ x y. x;
  mul32 = λ x y. x;
  mul64 = λ x y. x;
  of_uint64 = λ x. x;
  of_int64 = λ x. x;
  ldexp_one = λ x. x;
  neg = λ x. x;
  abs = λ x. x;
  add = λ x y. x;
  leb_float = λ x y. false;
  is_nan = λ x. false;
  is_inf = λ x. false;
  is_zero = λ x. false;
}

abbrev header : List ℕ
header = 4 ∷ 1 ∷ []

-- The first three pages of the case u32_mult.
abbrev mult_chunk : List ℕ
mult_chunk =
    113 ∷ 0 ∷ 0 ∷ 0 ∷ 0 ∷ 57 ∷ 0 ∷ 64 ∷ 13 ∷ 0 ∷ 0 ∷ 0 ∷ 96 ∷ 84 ∷ 1 ∷ 2 ∷ 0 ∷ 0 ∷ 32 ∷ 0 ∷ 144 ∷ 36
    ∷ 73 ∷ 146 ∷ 0 ∷ 40 ∷ 0 ∷ 240 ∷ 7 ∷ 0 ∷ 0 ∷ 0 ∷ 0 ∷ 0 ∷ 2 ∷ 0 ∷ 0 ∷ 0 ∷ 6 ∷ []

abbrev mult_pages : List (List ℕ)
mult_pages =
    (121 ∷ 0 ∷ 0 ∷ 0 ∷ 16 ∷ 0 ∷ 0 ∷ 0 ∷ 0 ∷ 0 ∷ [])
    ∷ (205 ∷ 242 ∷ 0 ∷ 0 ∷ 112 ∷ 22 ∷ 0 ∷ 0 ∷ 0 ∷ 0 ∷ 0 ∷ 0 ∷ 1 ∷ [])
    ∷ (121 ∷ 242 ∷ 228 ∷ 1 ∷ 112 ∷ 22 ∷ 112 ∷ 6 ∷ 0 ∷ 64 ∷ 64 ∷ 2 ∷ 0 ∷ 96 ∷ [])
    ∷ []

abbrev mult_bytes : List ℕ
mult_bytes =
    0 ∷ 0 ∷ 0 ∷ 0 ∷ 255 ∷ 255 ∷ 255 ∷ 255 ∷ 0 ∷ 0 ∷ 0 ∷ 0 ∷ 1 ∷ 0 ∷ 0 ∷ 0 ∷ 7 ∷ 0 ∷ 0 ∷ 0 ∷ 0 ∷ 1
    ∷ 0 ∷ 0 ∷ []

abbrev counts : List (List ℕ)
counts = (1 ∷ 2 ∷ 3 ∷ []) ∷ []

u32_mult : decode no_floats header (mult_chunk ∷ []) mult_pages counts Kind.u32 ≡ ok mult_bytes
unfolding decode
u32_mult = refl

-- The first three pages of the case f32_classic_consecutive_2.
abbrev deltas2_chunk : List ℕ
deltas2_chunk =
    16 ∷ 146 ∷ 4 ∷ 128 ∷ 2 ∷ 54 ∷ 51 ∷ 179 ∷ 66 ∷ 222 ∷ 110 ∷ 254 ∷ 255 ∷ 255 ∷ 191 ∷ 1 ∷ 7 ∷ 1 ∷ 0
    ∷ 0 ∷ 32 ∷ 64 ∷ 96 ∷ 204 ∷ 12 ∷ 0 ∷ 208 ∷ 3 ∷ []

abbrev deltas2_pages : List (List ℕ)
deltas2_pages =
    (255 ∷ 255 ∷ 183 ∷ 61 ∷ 0 ∷ 0 ∷ 0 ∷ 0 ∷ 0 ∷ 0 ∷ 0 ∷ 0 ∷ 0 ∷ [])
    ∷ (100 ∷ 102 ∷ 184 ∷ 61 ∷ 102 ∷ 102 ∷ 0 ∷ 0 ∷ 0 ∷ 0 ∷ 0 ∷ 0 ∷ 0 ∷ [])
    ∷ (50 ∷ 51 ∷ 185 ∷ 61 ∷ 101 ∷ 102 ∷ 0 ∷ 0 ∷ 81 ∷ 0 ∷ 0 ∷ 0 ∷ 0 ∷ 5 ∷ [])
    ∷ []

abbrev deltas2_bytes : List ℕ
deltas2_bytes =
    0 ∷ 0 ∷ 72 ∷ 194 ∷ 155 ∷ 153 ∷ 71 ∷ 194 ∷ 53 ∷ 51 ∷ 71 ∷ 194 ∷ 205 ∷ 204 ∷ 70 ∷ 194 ∷ 104 ∷ 102
    ∷ 70 ∷ 194 ∷ 2 ∷ 0 ∷ 70 ∷ 194 ∷ []

f32_consecutive :
    decode no_floats header (deltas2_chunk ∷ []) deltas2_pages counts Kind.f32 ≡ ok deltas2_bytes
unfolding decode
f32_consecutive = refl

decode-AreBytes_example :
    Sound (decode no_floats header (mult_chunk ∷ []) mult_pages counts Kind.u32) (λ out.
      (length (mult_chunk ∷ []) ≡ length counts)
      × (length mult_pages ≡ count_all counts)
      × (sum_all counts ≤ 2 ^ 24)
      × AreBytes (sum_all counts * Schema.width Kind.u32) out)
decode-AreBytes_example =
    decode-AreBytes no_floats header (mult_chunk ∷ []) mult_pages counts Kind.u32

-- Thirteen bits are left behind the third bit of two bytes.
abbrev two_bytes : Reader
two_bytes = record { content = 180 ∷ 3 ∷ []; pos = 3; error = none }

read-take_bits_example :
    ((read 7 two_bytes).0 ≡ ok (take_bits 7 (view two_bytes)).0)
    × (view (read 7 two_bytes).1 ≡ (take_bits 7 (view two_bytes)).1)
    × IsWithin (read 7 two_bytes).1
read-take_bits_example = read-take_bits 7 two_bytes (omega arith)

parse_latent-IsLatent_example : Always (parse_latent 32 false) (IsLatent 32 false)
parse_latent-IsLatent_example = parse_latent-IsLatent 32 false

-- Two states: each entry reads one bit, and goes to the state that it gives.
abbrev two_states : List AnsNode
two_states =
    record { next = 0; read = 1; offset = 0; lower = 5 }
    ∷ record { next = 0; read = 1; offset = 3; lower = 9 }
    ∷ []

abbrev states : List ℕ
states = 0 ∷ 1 ∷ 1 ∷ 0 ∷ []

read_nodes_lem_example :
    (nodes : List AnsNode) × (last : List ℕ) × (t : Reader) × (read_nodes 6 0 two_states states
        two_bytes
      ≡ (ok (nodes, last), t))
    × (length nodes ≡ 6)
    × States 1 last
read_nodes_lem_example =
    read_nodes_lem 1 6 0 two_states states two_bytes (refl, (omega arith, (omega arith, tt)))
      (refl, omega arith)

abbrev squares : List ℕ
squares = 250 ∷ 3 ∷ 14 ∷ 27 ∷ []

restore-deltas_example :
    restore (consecutive 2 false) (map (flip 8) (deltas 8 2 squares)) (moments 8 2 squares) [] 4 8
    ≡ ok squares
restore-deltas_example =
    restore-deltas 8 2 false squares [] (omega arith) (omega arith) (omega arith)

look_back-look_deltas_example :
    look_back 8 2 (look_deltas 8 (5 ∷ []) (1 ∷ 2 ∷ []) (7 ∷ 9 ∷ [])) (1 ∷ 2 ∷ []) (5 ∷ [])
    ≡ ok (5 ∷ 7 ∷ 9 ∷ [])
look_back-look_deltas_example =
    look_back-look_deltas 8 2 (5 ∷ []) (1 ∷ 2 ∷ []) (7 ∷ 9 ∷ []) (omega arith) (omega arith) refl
      (omega arith) (omega arith) (omega arith)

-- The metadata of a chunk with three pages.
abbrev metadata : Proto
metadata =
    record {
      tag = 2;
      wire = 2;
      num = 0;
      content = 10 ∷ 2 ∷ 8 ∷ 1 ∷ 10 ∷ 2 ∷ 8 ∷ 2 ∷ 10 ∷ 2 ∷ 8 ∷ 3 ∷ [];
    }
    ∷ []

counted : chunk_counts 6 0 metadata ≡ ok (counts, 6)
unfolding chunk_counts uvarint
counted = refl

pco_output_lem_example : length mult_bytes ≡ 6 * Schema.width Kind.u32
pco_output_lem_example =
    pco_output_lem no_floats header (mult_chunk ∷ []) mult_pages Kind.u32 6 metadata counts 6
      mult_bytes counted u32_mult

-- Three bins over a table of eight slots.
abbrev three_bins : List Bin
three_bins =
    record { weight = 3; offset = 0; lower = 0 }
    ∷ record { weight = 4; offset = 2; lower = 5 }
    ∷ record { weight = 1; offset = 1; lower = 9 }
    ∷ []

three_symbols : symbols 3 three_bins ≡ 0 ∷ 1 ∷ 0 ∷ 2 ∷ 1 ∷ 0 ∷ 1 ∷ 1 ∷ []
unfolding spread place stride
three_symbols = refl

three_sum : sum_weights three_bins ≡ 2 ^ 3
unfolding sum_weights
three_sum = refl

spread_lem_example :
    (slot 3 2 ≢ slot 3 3)
    × (get_elem? (symbols 3 three_bins) (slot 3 2) ≡ some (symbol_at three_bins 0 2))
    × (get_elem? (symbols 3 three_bins) (slot 3 3) ≡ some (symbol_at three_bins 0 3))
spread_lem_example = spread_lem 3 three_bins 2 3 three_sum (omega arith) (omega arith)

convolve-conv_deltas_example :
    convolve 8 1 4
      (1 ∷ 2 ∷ [])
      (conv_deltas 8 1 4 (1 ∷ 2 ∷ []) (3 ∷ 5 ∷ []) (7 ∷ 9 ∷ 200 ∷ []))
      (3 ∷ 5 ∷ [])
    ≡ ok (3 ∷ 5 ∷ 7 ∷ 9 ∷ 200 ∷ [])
convolve-conv_deltas_example =
    convolve-conv_deltas 8 1 4 (1 ∷ 2 ∷ []) (3 ∷ 5 ∷ []) (7 ∷ 9 ∷ 200 ∷ []) (omega arith)
      (omega arith) (omega arith) (omega arith) (omega arith)
