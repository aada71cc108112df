-- ===== src/Config/Valid.antt =====
-- What `load_config` of src/config.cpp makes sure of.
use glmserve.Prelude.{
  ℕ, zero, suc, ap, ◌∙◌, ◌<◌, ◌%◌, ◌≡◌, refl, true, ◌&&◌, Option, none, some, List, [], ◌∷◌, ◌⊎◌,
  inl, inr, arith,
}
use glmserve.Prelude.Int.{ℤ, pos, negsuc, int_eq, int_eq-eq, int_lt, int_le, abs, negate, int_mod}
use glmserve.Prelude.Bytes.{Bytes, codes}
use glmserve.Prelude.Result.{Gives, gives, fails, known, >>=-Gives, check-Gives}
use glmserve.Json.Parser.{Value, null, boolean, number, string, array, object, at, parse}
use glmserve.Json.Access.{obj, is_object}
use glmserve.Config.{
  Glm52Config, validate, divided, read_config, load_config, read_ids, read_eos, eos_ids, id_list,
  read_core, read_mla, read_moe, read_dsa, opened, parsed, config_path, read_head_dim,
}

-- The stop ids are none, or the first is `eos_token_id`.
unfoldable pub FirstStop : {Num : Type 0} → Glm52Config Num → Type 0
FirstStop c = (c.eos_token_ids ≡ []) ⊎ ((rest : List ℤ) × (c.eos_token_ids ≡ c.eos_token_id ∷ rest))

unfoldable pub IsPositive : ℤ → Type 0
IsPositive z = (n : ℕ) × (0 < n) × (z ≡ pos n)

-- A configuration that is accepted.
pub record IsValid {Num : Type 0} (c : Glm52Config Num) : Type 0 where
  pub some_width : IsPositive c.hidden_size
  pub some_layers : IsPositive c.num_hidden_layers
  pub some_kv_heads : 0 < abs c.num_key_value_heads
  pub even_heads : abs c.num_attention_heads % abs c.num_key_value_heads ≡ 0
  pub enough_experts : int_le c.num_experts_per_tok c.n_routed_experts ≡ true
  pub first_stop : FirstStop c

int_lt-IsPositive : (z : ℤ) → int_lt (pos 0) z ≡ true → IsPositive z
unfolding IsPositive
int_lt-IsPositive (pos n) h = (n, ground arith, refl)
int_lt-IsPositive (negsuc n) h = cc

negate-zero : (n : ℕ) → negate n ≡ pos 0 → n ≡ 0
negate-zero zero h = refl
negate-zero (suc n) h = absurd (ground arith)

int_mod-zero : (a b : ℤ) → int_mod a b ≡ some (pos 0) → (0 < abs b) × (abs a % abs b ≡ 0)
unfolding int_mod
int_mod-zero a (pos zero) h = cc
int_mod-zero (pos a) (pos (suc b)) h = (omega arith, cc)
int_mod-zero (pos a) (negsuc b) h = (omega arith, cc)
int_mod-zero (negsuc a) (pos (suc b)) h = (omega arith, negate-zero _ (cc))
int_mod-zero (negsuc a) (negsuc b) h = (omega arith, negate-zero _ (cc))

divided-some : (o : Option ℤ) → Gives (λ q. o ≡ some q) (divided o)
divided-some none = fails _
divided-some (some q) = gives q refl

module _ {Num : Type 0} (to_int : Num → ℤ) where
  validate-IsValid : (c : Glm52Config Num) → FirstStop c → Gives IsValid (validate to_int c)
  unfolding validate
  validate-IsValid c stop =
      check-Gives (int_lt (pos 0) c.hidden_size && int_lt (pos 0) c.num_hidden_layers) _ λ p.
        >>=-Gives (divided-some (int_mod c.num_attention_heads c.num_key_value_heads)) λ rest e.
          check-Gives (int_eq rest (pos 0)) _ λ z.
            check-Gives (int_le c.num_experts_per_tok c.n_routed_experts) _ λ x.
              let even =
                int_mod-zero c.num_attention_heads c.num_key_value_heads
                  (e ∙ ap some (int_eq-eq rest (pos 0) z)) in
              gives c record {
                some_width = int_lt-IsPositive c.hidden_size (ground arith);
                some_layers = int_lt-IsPositive c.num_hidden_layers (ground arith);
                some_kv_heads = even.0;
                even_heads = even.1;
                enough_experts = x;
                first_stop = stop;
              }

  read_eos-FirstStop :
      (v : Option (Value Num)) (c : Glm52Config Num) → FirstStop c → FirstStop (read_eos to_int v c)
  unfolding read_eos eos_ids FirstStop
  read_eos-FirstStop none c h = h
  read_eos-FirstStop (some null) c h = inr ([], refl)
  read_eos-FirstStop (some (boolean b)) c h = inr ([], refl)
  read_eos-FirstStop (some (number x)) c h = inr ([], refl)
  read_eos-FirstStop (some (string s)) c h = inr ([], refl)
  read_eos-FirstStop (some (array vs)) c h = ids (id_list to_int vs)
    where
      ids : (xs : List ℤ) → FirstStop (eos_ids to_int xs c)
      ids [] = inl refl
      ids (x ∷ xs) = inr (xs, refl)
  read_eos-FirstStop (some (object m)) c h = inr ([], refl)

  read_ids-FirstStop :
      (r : Value Num) (c : Glm52Config Num) → FirstStop c → FirstStop (read_ids to_int r c)
  unfolding read_ids FirstStop
  read_ids-FirstStop r c h = read_eos-FirstStop (at (obj r) (codes "eos_token_id")) _ h

  -- A configuration that is loaded has a positive width and number of layers, key-value heads that
  -- divide the heads, enough experts, and its first stop id in `eos_token_id`, as the defaults have.
  pub load_config-IsValid :
      (stod : Bytes → Option Num) (read_file : Bytes → Option Bytes) (default : Glm52Config Num)
      (path : Bytes)
      → FirstStop default
      → Gives IsValid (load_config to_int stod read_file default path)
  unfolding load_config read_config read_core read_mla read_moe read_dsa FirstStop
  load_config-IsValid stod read_file default path h =
      >>=-Gives (known (opened to_int (read_file (config_path path)))) λ text _.
        >>=-Gives (known (parsed to_int (parse stod text))) λ root _.
          check-Gives (is_object root) _ λ _.
            >>=-Gives (known (read_head_dim to_int root (read_core to_int root default)))
              λ head_dim _. validate-IsValid _ (read_ids-FirstStop root _ h)
