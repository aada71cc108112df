-- ===== src/Safetensors/Tests.antt =====
-- The reader of src/safetensors.cpp run on a small shard, and the instance of its theorem.
use glmserve.Prelude.{
  ℕ, ◌+◌, ◌*◌, ◌-◌, ◌/◌, ◌%◌, ◌≡◌, refl, Option, some, [], ◌∷◌, ◌++◌, length, replicate, zero, suc,
}
use glmserve.Prelude.Int.{ℤ, pos}
use glmserve.Prelude.Bytes.{Bytes, codes}
use glmserve.Prelude.Result.{Result, ok, err}
use glmserve.Json.Access.{get_string}
use glmserve.Safetensors.{
  Error, SafeTensors, empty_reader, load_shards, load_shard, header_text, parse_root, parse_entries,
  parse_entry, object_entry, read_entry, dtype_from_string, shape_of, as_ints, offsets_of, put,
}
use glmserve.Json.{skip_ws, parse_string, string_loop, string_turn}
use glmserve.Json.Parser.{
  parse, parse_value, parse_object, members_loop, parse_array, elements_loop, parse_number,
  number_text, number_loop, parse_string_value, insert, at,
}
use glmserve.Safetensors.Header.{IsIndexed, load_shards-empty}

abbrev decimal : ℕ → Bytes → ℕ
decimal n [] = n
decimal n (c ∷ s) = decimal (n * 10 + (c - b'0')) s

abbrev stod : Bytes → Option ℤ
stod s = some (pos (decimal 0 s))

abbrev le : ℕ → ℕ → Bytes
le zero n = []
le (suc w) n = n % 256 ∷ le w (n / 256)

abbrev header : Bytes
header = codes "{\"w\":{\"dtype\":\"F32\",\"shape\":[2],\"data_offsets\":[0,8]}}"

abbrev shard : Bytes
shard = le 8 (length header) ++ (header ++ replicate 8 7)

abbrev reader_or : Result Error SafeTensors → SafeTensors
reader_or (ok st) = st
reader_or (err e) = empty_reader

abbrev reader : SafeTensors
reader = reader_or (load_shards stod (λ x. x) (λ path. shard) (codes "m" ∷ []) empty_reader)

load_test : load_shards stod (λ x. x) (λ path. shard) (codes "m" ∷ []) empty_reader ≡ ok reader
unfolding load_shards load_shard header_text parse_root parse parse_value skip_ws parse_object
    members_loop parse_string string_loop string_turn parse_array elements_loop parse_number
    number_text number_loop parse_string_value insert parse_entries parse_entry object_entry
    read_entry dtype_from_string get_string at shape_of as_ints offsets_of put
load_test = refl

load_shards-empty_example : IsIndexed reader
load_shards-empty_example =
    load_shards-empty stod (λ x. x) (λ path. shard) (codes "m" ∷ []) reader load_test
