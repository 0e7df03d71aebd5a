-- ===== src/MeshId/Channel/Canonical.antt =====
-- The text of a channel's key stands for the channel: making the channel again from it changes
-- nothing, except for the one key whose short form means "no encryption".
use matrix_meshtastic.Prelude.{
  ℕ, suc, ◌+◌, ◌-◌, ◌%◌, ◌<◌, ◌≡◌, ◌≢◌, refl, sym, ap, ◌∙◌, ◌⊎◌, subst, false, inl, inr, [], ◌∷◌,
  ◌++◌, Option, none, some, arith, Bytes, ok, length, take, length-append, take-append-drop,
  last_byte, take_init, length-pos, drop_init, All-last, bytes_beq, bytes_beq_iff, nat_beq,
  Bool-cases, Result-cases, All,
}
use matrix_meshtastic.External.{Radio}
use matrix_meshtastic.Golang.Base64.{encode_to_string}
use matrix_meshtastic.MeshId.Channel.{
  ChannelDef, get_key_string, bump_last, encoded_key, expanded, channel_of, new_channel_def,
}

encode-ne-nil : (b : ℕ) (s : Bytes) → encode_to_string (b ∷ s) ≢ []
unfolding encode_to_string
encode-ne-nil b [] = λ e. cc
encode-ne-nil b (c ∷ []) = λ e. cc
encode-ne-nil b (c ∷ d ∷ s) = λ e. cc

bump_last-append : (d b : ℕ) (s : Bytes) → bump_last d (s ++ b ∷ []) ≡ s ++ ((b + d) % 256) ∷ []
unfolding bump_last
bump_last-append d b [] = refl
bump_last-append d b (c ∷ []) = refl
bump_last-append d b (c ∷ e ∷ s) = ap (λ t. c ∷ t) (bump_last-append d b (e ∷ s))

module _ (radio : Radio) where
  -- A text that spells `key_bytes` makes the channel that has these bytes, expanded.
  new_channel_def_text :
      (name text key_bytes : Bytes)
      → text ≢ []
      → radio.parse_key text ≡ ok key_bytes
      → new_channel_def radio name (some text)
        ≡ ok (channel_of radio name (expanded radio key_bytes))
  unfolding new_channel_def
  new_channel_def_text name [] key_bytes n h = absurd (n refl)
  new_channel_def_text name (c ∷ s) key_bytes n h = rw h

-- The library's default key ends in the byte 1: `1PG7OiApB1nwvP+rz05pAQ==`.
module _ (radio : Radio) (prefix : Bytes) (default_key : radio.default_key ≡ prefix ++ 1 ∷ []) where
  -- Expanding a one-byte key other than 0 puts the byte behind the prefix of the default key.
  expanded_one : (x : ℕ) → x ≢ 0 → x < 256 → expanded radio (x ∷ []) ≡ prefix ++ x ∷ []
  unfolding expanded
  expanded_one x n h =
      let e : (1 + (x - 1)) % 256 ≡ x = omega arith in
      let f : nat_beq x 0 ≡ false = ground arith in rw (f, default_key, bump_last-append, e)

  encoded_key_cases :
      (b : ℕ) (s : Bytes)
      → (encoded_key radio (b ∷ s) ≡ b ∷ s)
        ⊎ ((x : ℕ) × (b ∷ s ≡ prefix ++ x ∷ []) × (encoded_key radio (b ∷ s) ≡ x ∷ []))
  unfolding encoded_key
  encoded_key_cases b s =
      let key = b ∷ s in
      let (x, last) = last_byte b s in
      elim (Bool-cases (
        bytes_beq (take (length key - 1) key)
          (take (length radio.default_key - 1) radio.default_key))) [
            | inr other ↦ inl (ground arith)
            | inl same ↦
                let init : take (length key - 1) key ≡ prefix =
                  (bytes_beq_iff _ _).0 same ∙ rw default_key (take_init prefix 1) in
                let whole : key ≡ prefix ++ x ∷ [] =
                  cc (take-append-drop (length key - 1) key, init, last) in
                elim (Bool-cases (nat_beq (length key) (length radio.default_key))) [
                  | inr longer ↦ inl (ground arith)
                  | inl fits ↦ inr (x, whole, rw (fits, same) last)
                ]
          ]

  encoded_key-append : (x : ℕ) → encoded_key radio (prefix ++ x ∷ []) ≡ x ∷ []
  unfolding encoded_key
  encoded_key-append x =
      let l : length (prefix ++ x ∷ []) ≡ length (prefix ++ 1 ∷ []) =
        omega (arith, length-append prefix (x ∷ []), length-append prefix (1 ∷ [])) in
      rw (default_key, take_init prefix x, take_init prefix 1, drop_init prefix x)
        (ground (arith, bytes_beq_iff prefix prefix))

  expanded_long : (b c : ℕ) (s : Bytes) → expanded radio (b ∷ c ∷ s) ≡ b ∷ c ∷ s
  unfolding expanded
  expanded_long b c s = ground arith

  expanded-encoded_key :
      (b c : ℕ) (s : Bytes)
      → All (λ c. c < 256) (b ∷ c ∷ s)
      → encoded_key radio (b ∷ c ∷ s) ≢ 0 ∷ []
      → expanded radio (encoded_key radio (b ∷ c ∷ s)) ≡ b ∷ c ∷ s
  expanded-encoded_key b c s small nonzero = elim (encoded_key_cases b (c ∷ s)) [
    | inl whole ↦ rw whole (expanded_long b c s)
    | inr (x, whole, short) ↦ rw short (
        expanded_one x (λ z. nonzero (short ∙ ap (λ n. n ∷ []) z))
          (All-last (λ c. c < 256) prefix x (subst (All (λ c. c < 256)) whole small))
        ∙ sym whole)
  ]

  key_string :
      (name : Bytes) (b : ℕ) (s : Bytes)
      → get_key_string (channel_of radio name (b ∷ s))
        ≡ encode_to_string (encoded_key radio (b ∷ s))
  unfolding get_key_string channel_of
  key_string name b s = refl

  encoded_key-ne-nil : (b : ℕ) (s : Bytes) → encoded_key radio (b ∷ s) ≢ []
  encoded_key-ne-nil b s = elim (encoded_key_cases b s) [
    | inl whole ↦ λ e. cc
    | inr (x, whole, short) ↦ λ e. cc
  ]

  text-ne-nil : (s : Bytes) → s ≢ [] → encode_to_string s ≢ []
  text-ne-nil [] n = absurd (n refl)
  text-ne-nil (b ∷ s) n = encode-ne-nil b s

  -- What `ParseKey` makes of the text of a channel's key.
  abbrev ReadsBack : ChannelDef → Type 0
  ReadsBack d = radio.parse_key (get_key_string d) ≡ ok (encoded_key radio d.key_bytes)

  key_string-ne-nil :
      (name key_bytes : Bytes)
      → key_bytes ≢ []
      → get_key_string (channel_of radio name key_bytes) ≢ []
  key_string-ne-nil name [] n = absurd (n refl)
  key_string-ne-nil name (b ∷ s) n =
      rw (key_string name b s) (text-ne-nil _ (encoded_key-ne-nil b s))

  append-ne-nil : (s : Bytes) (b : ℕ) → s ++ b ∷ [] ≢ []
  append-ne-nil [] b = λ e. cc
  append-ne-nil (c ∷ s) b = λ e. cc

  recreate_of_channel :
      (name key_bytes : Bytes)
      → length key_bytes ≢ 1
      → All (λ c. c < 256) key_bytes
      → encoded_key radio key_bytes ≢ 0 ∷ []
      → ReadsBack (channel_of radio name key_bytes)
      → new_channel_def radio name (some (get_key_string (channel_of radio name key_bytes)))
        ≡ ok (channel_of radio name key_bytes)
  unfolding channel_of
  recreate_of_channel name [] l small nonzero reads = unfold new_channel_def get_key_string in refl
  recreate_of_channel name (b ∷ []) l small nonzero reads = absurd (l refl)
  recreate_of_channel name (b ∷ c ∷ s) l small nonzero reads =
      new_channel_def_text radio name _ _ (key_string-ne-nil name (b ∷ c ∷ s) (λ e. cc)) reads
      ∙ ap (λ k. ok (channel_of radio name k)) (expanded-encoded_key b c s small nonzero)

  length-bump_last : (d : ℕ) (s : Bytes) → length (bump_last d s) ≡ length s
  unfolding bump_last
  length-bump_last d [] = refl
  length-bump_last d (b ∷ []) = refl
  length-bump_last d (b ∷ c ∷ s) = ap suc (length-bump_last d (c ∷ s))

  length-expanded-ne-one : prefix ≢ [] → (key_bytes : Bytes) → length (expanded radio key_bytes) ≢ 1
  unfolding expanded
  length-expanded-ne-one n [] = omega arith
  length-expanded-ne-one n (b ∷ c ∷ s) = rw (expanded_long b c s) (omega arith)
  length-expanded-ne-one n (b ∷ []) =
      let l : length radio.default_key ≡ length prefix + 1 =
        rw default_key (length-append prefix (1 ∷ [])) in
      ground (arith, length-bump_last (b - 1) radio.default_key, length-pos prefix n)

  made_by :
      prefix ≢ []
      → (name : Bytes) (key : Option Bytes) (d : ChannelDef) → new_channel_def radio name key ≡ ok d
      → (key_bytes : Bytes) × (length key_bytes ≢ 1) × (d ≡ channel_of radio name key_bytes)
  unfolding new_channel_def
  made_by n name none d e = ([], omega arith, cc)
  made_by n name (some []) d e = ([], omega arith, cc)
  made_by n name (some (c ∷ s)) d e = elim (Result-cases (radio.parse_key (c ∷ s))) [
    | inl (key_bytes, parsed) ↦ (
      expanded radio key_bytes,
      length-expanded-ne-one n key_bytes,
      cc (new_channel_def_text radio name (c ∷ s) key_bytes (λ z. cc) parsed),
    )
    | inr (x, failed) ↦ absurd (ground arith)
  ]

  -- Making a channel again from its name and the text of its key gives the same channel, for every
  -- channel that `NewChannelDef` makes, if the library reads back the text, the key is of bytes, and
  -- the key that is spelt is not the single byte 0; the library's default key is taken to end in the
  -- byte 1 and to be longer.
  pub new_channel_def-get_key_string :
      prefix ≢ []
      → (name : Bytes) (key : Option Bytes) (d : ChannelDef) → new_channel_def radio name key ≡ ok d
      → ReadsBack d
      → All (λ c. c < 256) d.key_bytes
      → encoded_key radio d.key_bytes ≢ 0 ∷ []
      → new_channel_def radio name (some (get_key_string d)) ≡ ok d
  unfolding channel_of
  new_channel_def-get_key_string n name key d made reads small nonzero =
      let (key_bytes, long, e) = made_by n name key d made in
      subst
        (λ c.
          ReadsBack c
          → All (λ c. c < 256) c.key_bytes
          → encoded_key radio c.key_bytes ≢ 0 ∷ []
          → new_channel_def radio name (some (get_key_string c)) ≡ ok c)
        (sym e) (λ r m z. recreate_of_channel name key_bytes long m z r) reads small nonzero

  -- A key that is the default key but for a last byte of 0 does not survive: the channel made again
  -- from the text of the key has no key at all, if the library reads back the text and its default key
  -- is longer than the one byte 1 that it ends in.
  pub new_channel_def-get_key_string_zero :
      prefix ≢ []
      → (name : Bytes) (key : Option Bytes) (d : ChannelDef) → new_channel_def radio name key ≡ ok d
      → d.key_bytes ≡ prefix ++ 0 ∷ []
      → ReadsBack d
      → new_channel_def radio name (some (get_key_string d))
        ≡ ok (record { name = name; key = none; key_bytes = [] })
  unfolding channel_of expanded
  new_channel_def-get_key_string_zero n name key d made zeroed reads =
      let (key_bytes, long, e) = made_by n name key d made in
      let held : d.key_bytes ≡ key_bytes = ap (λ c. c.key_bytes) e in
      new_channel_def_text radio name (get_key_string d) (0 ∷ [])
        (rw e (key_string-ne-nil name key_bytes (rw (sym held ∙ zeroed) (append-ne-nil prefix 0))))
        (reads ∙ ap ok (ap (encoded_key radio) zeroed ∙ encoded_key-append 0))
