-- ===== src/Bridge/Mentions/Kept.antt =====
-- A message that mentions no node that is known (`convertMessageEvent` of
-- pkg/connector/handle_meshtastic.go).
use matrix_meshtastic.Prelude.{
  ℕ, zero, suc, ◌-◌, ◌≤◌, ◌≡◌, refl, sym, ap, ◌∙◌, arith, false, Bool-cases, List, [], ◌∷◌, ◌++◌,
  append_assoc, Option, none, some, Bytes, drop, take, take-append-drop, length, contains, nat_eq,
  All, inl, inr,
}
use matrix_meshtastic.Mesh.Events.{MeshMessageEvent}
use matrix_meshtastic.Bridge.Database.Rows.{statement-quiet}
use matrix_meshtastic.Bridge.Database.Lookups.{find_short, is_short_id, get_by_short_user_id}
use matrix_meshtastic.Bridge.Hub.{Outside, Portal, Hub, query, ◌>>=◌}
use matrix_meshtastic.Bridge.ToMatrix.{reply_target}
use matrix_meshtastic.Bridge.Mentions.{
  bell, Match, Texts, Written, slice, kept, mention, write_matches, write_message, finish,
  convert_message_event,
}

-- The matches follow each other, from a position on, within the message.
abbrev pub InOrder : ℕ → List Match → Bytes → Type 0
InOrder at [] mess = at ≤ length mess
InOrder at (m ∷ ms) mess = (at ≤ m.start) × (m.start ≤ m.end) × InOrder m.end ms mess

take-nil : (n : ℕ) → take {A = ℕ} n [] ≡ []
take-nil zero = refl
take-nil (suc n) = refl

take-slice : (a b : ℕ) (s : Bytes) → a ≤ b → take a s ++ slice a b s ≡ take b s
take-slice zero b s h = ap (λ n. take n s) (omega arith)
take-slice (suc a) zero s h = absurd (omega arith)
take-slice (suc a) (suc b) [] h = take-nil (suc b - suc a)
take-slice (suc a) (suc b) (c ∷ s) h =
    let e : suc b - suc a ≡ b - a = omega arith in
    rw e (ap (λ t. c ∷ t) (take-slice a b s (omega arith)))

-- What was written is the message so far, and nobody is mentioned.
record IsPlain (mess : Bytes) (w : Written) : Type 0 where
  pub body : w.body ≡ take w.last mess
  pub formatted : w.formatted ≡ take w.last mess
  pub nobody : w.users ≡ []

piece :
    (mess : Bytes) (a b c : ℕ)
    → a ≤ b
    → b ≤ c
    → take a mess ++ (slice a b mess ++ slice b c mess) ≡ take c mess
piece mess a b c h k =
    sym (append_assoc (take a mess) (slice a b mess) (slice b c mess))
    ∙ ap (λ t. t ++ slice b c mess) (take-slice a b mess h)
    ∙ take-slice b c mess k

kept-IsPlain :
    (mess : Bytes) (m : Match) (w : Written)
    → w.last ≤ m.start
    → m.start ≤ m.end
    → IsPlain mess w
    → IsPlain mess (kept mess m w)
kept-IsPlain mess m w h k p = record {
  body =
      ap (λ t. t ++ (slice w.last m.start mess ++ slice m.start m.end mess)) p.body
      ∙ piece mess w.last m.start m.end h k;
  formatted =
      ap (λ t. t ++ (slice w.last m.start mess ++ slice m.start m.end mess)) p.formatted
      ∙ piece mess w.last m.start m.end h k;
  nobody = p.nobody;
}

module _ (o : Outside) (x : Texts) where
  -- No row has the short ID of the match.
  abbrev pub IsUnknown : Bytes → Hub → Match → Type 0
  IsUnknown mess h m = find_short (slice m.user_start m.user_end mess) h.tables.nodes ≡ none

  unknown_kept :
      (short mess : Bytes) (m : Match) (w : Written) (h : Hub)
      → h.tables.faults ≡ []
      → find_short short h.tables.nodes ≡ none
      → (query (get_by_short_user_id short) >>= mention o x mess m w) h ≡ (some (kept mess m w), h)
  unfolding ◌>>=◌ get_by_short_user_id
  unknown_kept short mess m w h quiet unknown = elim (Bool-cases (is_short_id short)) [
    | inl short_id ↦ rw (short_id, statement-quiet _ h.tables quiet, unknown) refl
    | inr other ↦ rw other refl
  ]

  written :
      (mess : Bytes) (ms : List Match) (w : Written) (h : Hub)
      → h.tables.faults ≡ []
      → All (IsUnknown mess h) ms
      → InOrder w.last ms mess
      → IsPlain mess w
      → (w' : Written) × (write_matches o x mess ms w h ≡ (some w', h)) × IsPlain mess w'
  unfolding write_matches ◌>>=◌
  written mess [] w h quiet unknown order plain = (w, refl, plain)
  written mess (m ∷ ms) w h quiet (u, us) (before, within, order) plain =
      let (w', e, p) =
        written mess ms (kept mess m w) h quiet us order
          (kept-IsPlain mess m w before within plain) in
      (w', rw (unknown_kept (slice m.user_start m.user_end mess) mess m w h quiet u) e, p)

  -- A text without a match is sent as it is; with one, it is sent formatted too.
  abbrev pub formatted_as : List Match → Bytes → Bytes
  formatted_as [] mess = []
  formatted_as (m ∷ ms) mess = mess

  whole_message :
      (mess : Bytes) (ms : List Match) (h : Hub)
      → h.tables.faults ≡ []
      → All (IsUnknown mess h) ms
      → InOrder 0 ms mess
      → (w : Written) × (write_message o x mess ms h ≡ (some w, h))
        × (w.body ≡ mess)
        × (w.formatted ≡ formatted_as ms mess)
        × (w.users ≡ [])
  unfolding ◌>>=◌
  whole_message mess [] h quiet unknown order = (_, refl, refl, refl, refl)
  whole_message mess (m ∷ ms) h quiet unknown order =
      let (w, e, p) =
        written mess (m ∷ ms) (record { body = []; formatted = []; last = 0; users = [] }) h quiet
          unknown order (record { body = refl; formatted = refl; nobody = refl }) in
      (
        record w { body = w.body ++ drop w.last mess; formatted = w.formatted ++ drop w.last mess },
        rw e refl,
        ap (λ t. t ++ drop w.last mess) p.body ∙ take-append-drop w.last mess,
        ap (λ t. t ++ drop w.last mess) p.formatted ∙ take-append-drop w.last mess,
        p.nobody,
      )

  finish_quietly :
      (p : Portal) (mess : Bytes) (reply : Option Bytes) (w : Written) (h : Hub)
      → contains w.body bell ≡ false
      → finish o x p mess reply w h ≡ (
        some (record {
          body = w.body;
          formatted_body = w.formatted;
          mentioned = w.users;
          mentions_room = false;
          reply_to = reply;
        }),
        h,
      )
  unfolding finish
  finish_quietly p mess reply w h silent = rw silent refl

  -- A message without the bell in which no match is the short ID of a stored node becomes its own text,
  -- mentions nobody and changes nothing, if the matches follow each other within it and the database
  -- runs the statements.
  pub plain_message_stays :
      (p : Portal) (evt : MeshMessageEvent) (h : Hub)
      → h.tables.faults ≡ []
      → contains evt.message bell ≡ false
      → All (IsUnknown evt.message h) (x.find_all evt.message)
      → InOrder 0 (x.find_all evt.message) evt.message
      → convert_message_event o x p evt h ≡ (
        some (record {
          body = evt.message;
          formatted_body = formatted_as (x.find_all evt.message) evt.message;
          mentioned = [];
          mentions_room = false;
          reply_to = reply_target evt;
        }),
        h,
      )
  unfolding convert_message_event ◌>>=◌
  plain_message_stays p evt h quiet silent unknown order =
      let (w, e, b, f, u) =
        whole_message evt.message (x.find_all evt.message) h quiet unknown order in
      rw e (finish_quietly p evt.message (reply_target evt) w h (rw b silent) ∙ rw (b, f, u) refl)
