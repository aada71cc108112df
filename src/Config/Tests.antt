-- ===== src/Config/Tests.antt =====
-- The loader of src/config.cpp run on small files, and the instance of its theorem.
use glmserve.Prelude.{ℕ, ◌≡◌, refl, ◌-◌, Bool, false, Option, none, some, List, [], ◌∷◌, inr}
use glmserve.Prelude.Int.{ℤ, pos, int_mod, int_div}
use glmserve.Prelude.Bytes.{Bytes, codes}
use glmserve.Prelude.Result.{Result, ok, err, Gives}
use glmserve.Json.Parser.{
  parse, parse_value, parse_object, members_loop, parse_array, elements_loop, parse_number,
  number_text, number_loop, insert, at,
}
use glmserve.Json.{skip_ws, parse_string, string_loop, string_turn}
use glmserve.Json.Access.{get_string, get_int, get_bool, get_double, has}
use glmserve.Config.{
  Glm52Config, default_config, load_config, config_path, read_config, read_core, read_head_dim,
  read_mla, read_moe, read_dsa, theta_in, types_in, read_ids, read_eos, eos_ids, architecture_in,
  validate, division_by_zero, id_list, ConfigError,
}
use glmserve.Config.Valid.{IsValid, FirstStop, load_config-IsValid}

abbrev stod : Bytes → Option ℕ
stod [] = none
stod (c ∷ s) = some (c - b'0')

abbrev number_of : ℕ → ℤ
number_of n = pos n

abbrev small_config : Glm52Config ℕ
small_config = default_config 0 0 0

-- A file system in which every file holds the text.
abbrev loaded : Bytes → Result ConfigError (Glm52Config ℕ)
loaded text = load_config number_of stod (λ path. some text) small_config (codes "model")

abbrev Seen : Type 0
Seen = ℤ × Bool × ℤ × List ℤ

-- The fields that the tests look at.
abbrev seen : Result ConfigError (Glm52Config ℕ) → Result ConfigError Seen
seen (ok c) = ok (c.head_dim, c.use_dsa, c.eos_token_id, c.eos_token_ids)
seen (err e) = err e

config_path_test : config_path (codes "model") ≡ codes "model/config.json"
unfolding config_path
config_path_test = refl

-- Without the keys, the width of a head is not the default, and sparse attention is off.
defaults_test :
    seen (loaded (codes "{}"))
    ≡ ok (pos 96, false, pos 154820, pos 154820 ∷ pos 154827 ∷ pos 154829 ∷ [])
unfolding load_config parse parse_value skip_ws parse_object read_config read_core read_head_dim
    read_mla read_moe read_dsa theta_in types_in read_ids read_eos architecture_in validate
    default_config int_div int_mod at get_int get_bool get_string get_double has
defaults_test = refl

no_heads_test : loaded (codes "{\"num_key_value_heads\":0}") ≡ err division_by_zero
unfolding load_config parse parse_value skip_ws parse_object members_loop insert parse_string
    string_loop string_turn parse_number number_text number_loop read_config read_core read_head_dim
    read_mla read_moe read_dsa theta_in types_in read_ids read_eos architecture_in validate
    default_config int_div int_mod at get_int get_bool get_string get_double has
no_heads_test = refl

stops_test :
    seen (loaded (codes "{\"eos_token_id\":[7,8]}")) ≡ ok (pos 96, false, pos 7, pos 7 ∷ pos 8 ∷ [])
unfolding load_config parse parse_value skip_ws parse_object members_loop insert parse_string
    string_loop string_turn parse_number number_text number_loop parse_array elements_loop
    read_config read_core read_head_dim read_mla read_moe read_dsa theta_in types_in read_ids
    read_eos eos_ids id_list architecture_in validate default_config int_div int_mod at get_int
    get_bool get_string get_double has
stops_test = refl

load_config-IsValid_example : Gives IsValid (loaded (codes "{\"eos_token_id\":[7,8]}"))
unfolding FirstStop default_config
load_config-IsValid_example =
    load_config-IsValid number_of stod (λ path. some (codes "{\"eos_token_id\":[7,8]}"))
      small_config (codes "model") (inr (pos 154827 ∷ pos 154829 ∷ [], refl))
