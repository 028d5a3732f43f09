-- ===== src/Odoh/Configs/RoundTrip.antt =====
-- ParseConfigs on what MarshalConfigs writes, on configs of other versions, and on any input.
use addr_tools.Prelude.{
  take_all, ◌==◌, if◌then◌else◌, length, length-append, take, drop, length-drop, take-append,
  drop-append, Bytes, Result, ok, err, ℕ, zero, suc, ◌+◌, ◌*◌, ◌/◌, ◌%◌, ◌≤◌, ◌<◌, ◌≡◌, sym, ap,
  ◌∙◌, ◌≢◌, ◌⊎◌, inl, inr, true, false, [], ◌∷◌, ◌++◌, append-nil, arith,
}
use addr_tools.Odoh.Wire.{Error, stuck, append_uint16, uint16, wire_len_id}
use addr_tools.Odoh.Configs.{
  take_config, ConfigContents, config_version, marshal, marshal_config, marshal_configs,
  parse_config_contents, is_supported, configs_loop, parse_configs,
}

abbrev pub IsUint16 : ℕ → Type 0
IsUint16 v = v < 65536

-- The body of the next config, behind its version and its length.
abbrev pub config_bytes : ℕ → Bytes → Bytes
config_bytes version body = append_uint16 [] version ++ append_uint16 [] (length body) ++ body

parse_config_contents-ne-stuck : (b : Bytes) → parse_config_contents b ≢ err stuck
unfolding parse_config_contents
parse_config_contents-ne-stuck b e = ground arith

take_config-ne-stuck :
    (r rest : Result Error ConfigContents)
    → r ≢ err stuck
    → rest ≢ err stuck
    → take_config r rest ≢ err stuck
take_config-ne-stuck (err x) rest h k e = h e
take_config-ne-stuck (ok c) rest h k e = ground arith

configs_loop-ne-stuck : (fuel : ℕ) (b : Bytes) → length b ≤ fuel → configs_loop fuel b ≢ err stuck
unfolding configs_loop
configs_loop-ne-stuck fuel [] h e = cc
configs_loop-ne-stuck zero (c ∷ cs) h e = absurd (omega arith)
configs_loop-ne-stuck (suc fuel) (c ∷ cs) h e =
    let len = uint16 (drop 2 (c ∷ cs)) in
    let rest = drop len (drop 4 (c ∷ cs)) in
    ground (
      arith,
      configs_loop-ne-stuck fuel rest
          (omega (arith, length-drop len (drop 4 (c ∷ cs)), length-drop 4 (c ∷ cs))),
      parse_config_contents-ne-stuck (take len (drop 4 (c ∷ cs))),
      take_config-ne-stuck (parse_config_contents (take len (drop 4 (c ∷ cs))))
          (configs_loop fuel rest),
    )

-- ParseConfigs ends on every input: its loop never runs out of rounds.
pub parse_configs-ne-stuck : (b : Bytes) → parse_configs b ≢ err stuck
unfolding parse_configs
parse_configs-ne-stuck b e =
    ground (arith, configs_loop-ne-stuck (length (drop 2 b)) (drop 2 b) (omega arith))

uint16_bytes : (v : ℕ) → IsUint16 v → v / 256 % 256 * 256 + v % 256 ≡ v
uint16_bytes v h = omega arith

-- One round of the loop on a config in front of others.
pub configs_loop_round :
    (fuel version : ℕ) (body rest : Bytes)
    → IsUint16 version
    → IsUint16 (length body)
    → configs_loop (suc fuel) (config_bytes version body ++ rest) ≡ (
        if version == config_version
        then take_config (parse_config_contents body) (configs_loop fuel rest)
        else configs_loop fuel rest)
unfolding configs_loop append_uint16 uint16
configs_loop_round fuel version body rest hv hl =
    rw
      (
        uint16_bytes version hv,
        uint16_bytes (length body) hl,
        take-append body rest,
        drop-append body rest,
        length-append body rest,
      )
      (ground arith)

-- In the loop of ParseConfigs, a config of another version, or one of an unsupported suite that
-- is well formed, does not change what the configs behind it give.
pub configs_loop_skip :
    (fuel version : ℕ) (body rest : Bytes)
    → IsUint16 version
    → IsUint16 (length body)
    → (version ≢ config_version)
      ⊎ ((c : ConfigContents) × (parse_config_contents body ≡ ok c) × (is_supported c ≡ false))
    → configs_loop (suc fuel) (config_bytes version body ++ rest) ≡ configs_loop fuel rest
configs_loop_skip fuel version body rest hv hl (inl other) =
    rw (configs_loop_round fuel version body rest hv hl) (ground arith)
configs_loop_skip fuel version body rest hv hl (inr (c, parsed, unsupported)) =
    rw (configs_loop_round fuel version body rest hv hl, parsed, unsupported) (ground arith)

-- A config that fits its length prefixes.
pub record IsEncodable (c : ConfigContents) : Type 0 where
  pub kem : IsUint16 c.kem_id
  pub kdf : IsUint16 c.kdf_id
  pub aead : IsUint16 c.aead_id
  pub some_key : 1 ≤ length c.public_key
  pub key_fits : length c.public_key ≤ 65523

pub length-marshal : (c : ConfigContents) → length (marshal c) ≡ length c.public_key + 8
unfolding marshal append_uint16
length-marshal c = omega arith

pub parse-marshal : (c : ConfigContents) → IsEncodable c → parse_config_contents (marshal c) ≡ ok c
unfolding parse_config_contents marshal append_uint16 uint16
parse-marshal c h =
    rw
      (
        wire_len_id (length c.public_key) (omega (arith, h.key_fits)),
        uint16_bytes c.kem_id h.kem,
        uint16_bytes c.kdf_id h.kdf,
        uint16_bytes c.aead_id h.aead,
        uint16_bytes (length c.public_key) (omega (arith, h.key_fits)),
      )
      (rw (take_all c.public_key) (ground arith))

pub marshal_config_lem :
    (c : ConfigContents)
    → IsEncodable c
    → marshal_config c ≡ config_bytes config_version (marshal c)
unfolding marshal_config append_uint16
marshal_config_lem c h =
    rw (wire_len_id (length (marshal c)) (omega (arith, length-marshal c, h.key_fits)))

length-marshal_config :
    (c : ConfigContents) → IsEncodable c → length (marshal_config c) ≡ length c.public_key + 12
length-marshal_config c h =
    rw (marshal_config_lem c h) (unfold append_uint16 in omega (arith, length-marshal c))

parse_configs_framed :
    (b : Bytes)
    → length b ≤ 65535
    → parse_configs (append_uint16 [] (length b) ++ b) ≡ configs_loop (length b) b
unfolding parse_configs append_uint16 uint16
parse_configs_framed b h = rw (uint16_bytes (length b) (omega arith)) (ground arith)

configs_loop_more :
    (n : ℕ) (c : ConfigContents) (rest : Bytes)
    → IsEncodable c
    → is_supported c ≡ true
    → 1 ≤ n
    → configs_loop n (config_bytes config_version (marshal c) ++ rest) ≡ ok c
configs_loop_more zero c rest h sup one = absurd (omega arith)
configs_loop_more (suc n) c rest h sup one = rw (
  configs_loop_round n config_version (marshal c) rest (omega arith)
      (omega (arith, length-marshal c, h.key_fits)),
  parse-marshal c h,
  sup,
)

-- ParseConfigs returns the config that MarshalConfigs encoded, if its suite is the supported one and
-- its fields fit their encoding.
pub parse_configs-marshal_configs :
    (c : ConfigContents)
    → IsEncodable c
    → is_supported c ≡ true
    → parse_configs (marshal_configs c) ≡ ok c
unfolding marshal_configs
parse_configs-marshal_configs c h sup =
    rw
      (
        wire_len_id (length (marshal_config c))
            (omega (arith, length-marshal_config c h, h.key_fits)),
        parse_configs_framed (marshal_config c)
            (omega (arith, length-marshal_config c h, h.key_fits)),
      )
      (ap (configs_loop (length (marshal_config c))) framed
        ∙ configs_loop_more (length (marshal_config c)) c [] h sup
            (omega (arith, length-marshal_config c h)))
  where
    framed : marshal_config c ≡ config_bytes config_version (marshal c) ++ []
    framed = marshal_config_lem c h ∙ sym (append-nil _)
