-- ===== src/Bridge/Names/Laws.antt =====
-- The names that users of Matrix get (`postMessageSave` and `UpdateGhostMeshNames` of
-- pkg/connector/handle_matrix.go, `TruncateString` of pkg/connector/utils.go).
use matrix_meshtastic.Prelude.{
  inl, long_name_too_long, ℕ, zero, suc, ◌+◌, ◌<◌, ◌≡◌, refl, arith, false, List, [], ◌∷◌, ◌++◌,
  Option, some, Bytes, length, take, bytes_beq, Result, ok, All,
}
use matrix_meshtastic.Golang.Utf8.{runes, runes-ascii, rune_string-ascii, trim_space}
use matrix_meshtastic.MeshId.Ids.{mxid_to_node_id}
use matrix_meshtastic.MeshId.Node.{get_default_node_names}
use matrix_meshtastic.Bridge.Hub.{Outside, Ghost, got_ghost, BridgeCall, Hub, ◌>>=◌}
use matrix_meshtastic.Bridge.Names.{
  truncate_from, truncate_string, update_ghost_mesh_names, post_message_save,
}

truncate_from-ascii :
    (s : Bytes) (limit count k : ℕ)
    → All (λ b. b < 0x80) s
    → limit ≡ count + suc k
    → truncate_from (runes s) limit count ≡ take (suc k) s
unfolding truncate_from
truncate_from-ascii [] limit count k h e = unfold runes in refl
truncate_from-ascii (a ∷ s) limit count zero (h, hs) e =
    rw (runes-ascii a s h, rune_string-ascii a h) (ground arith)
truncate_from-ascii (a ∷ s) limit count (suc k) (h, hs) e =
    rw (runes-ascii a s h, rune_string-ascii a h)
      (ground (arith, truncate_from-ascii s limit (suc count) k hs (omega arith)))

-- A text of ASCII is cut to its first bytes, as many as the limit says.
pub truncate_string-take :
    (s : Bytes) → All (λ b. b < 0x80) s → (n : ℕ) → truncate_string s n ≡ take n s
unfolding truncate_string
truncate_string-take s h zero = refl
truncate_string-take s h (suc n) = truncate_from-ascii s (suc n) 0 n h (omega arith)

module _ (o : Outside) where
  long_name_refused :
      (user_id mxid long short : Bytes) (h : Hub)
      → 39 < length long
      → update_ghost_mesh_names o user_id mxid long short h
        ≡ (some (some (inl long_name_too_long)), h)
  unfolding update_ghost_mesh_names
  long_name_refused user_id mxid long short h l = ground arith

module _ (o : Outside) (member_info : List BridgeCall → Bytes → Bytes → Result (Option Bytes)) where
  -- A long name that takes more than 39 bytes after it was cut to 39 runes is refused, and nothing is
  -- done but to ask the framework for the ghost, if it has the ghost without a name and knows the member.
  pub long_names_are_dropped :
      (mxid room sender_id display : Bytes) (ghost : Ghost) (h : Hub)
      → o.get_ghost_by_id h.calls sender_id ≡ ok ghost
      → ghost.name_set ≡ false
      → member_info (h.calls ++ got_ghost sender_id ∷ []) room mxid ≡ ok (some display)
      → bytes_beq (trim_space display) [] ≡ false
      → 39 < length (truncate_string (trim_space display) 39)
      → post_message_save o member_info mxid room sender_id h
        ≡ (some tt, record h { calls = h.calls ++ got_ghost sender_id ∷ [] })
  unfolding post_message_save ◌>>=◌
  long_names_are_dropped mxid room sender_id display ghost h found unset known spelt long =
      rw
        (
          found,
          known,
          unset,
          spelt,
          long_name_refused o sender_id mxid _ (get_default_node_names (mxid_to_node_id mxid)).1
              (record h { calls = h.calls ++ got_ghost sender_id ∷ [] }) long,
        )
        refl
