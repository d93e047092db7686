-- ===== src/Escrow/Events/Decode.antt =====
-- `decodeEscrowEventData` of sdk/src/escrow/events.ts: the data of one inner instruction, as an event.
use ppv.Base.{
  Option, none, some, List, [], ◌∷◌, ◌++◌, ◌==◌, list_eq, length, if◌then◌else◌, take_front, drop,
  ltb,
}
use ppv.Base.Result.{Result, ok, err}
use ppv.Base.Text.{Text, Bytes, codes}
use ppv.Escrow.States.{RangeError}
use ppv.Escrow.Events.{PpvEscrowEvent}
use ppv.Escrow.Events.Reader.{read_all}
use ppv.Escrow.Events.Names.{EventName, ppv_escrow_event_names, name_text}
use ppv.Escrow.Events.Readers.{read_event}

-- `anchor_lang::event::EVENT_IX_TAG_LE`.
abbrev pub event_ix_tag : Bytes
event_ix_tag = 0xe4 ∷ 0x45 ∷ 0xa5 ∷ 0x2e ∷ 0x51 ∷ 0xcb ∷ 0x9a ∷ 0x1d ∷ []

-- The bytes of `name_text n` with the namespace in front are hashed by SHA-256, which is not this
-- repository's: `sha256` stands for it.
module _ (sha256 : Text → Bytes) where
  -- `anchorDiscriminator("event", name)`.
  unfoldable pub event_discriminator : EventName → Bytes
  unfolding name_text
  event_discriminator n = take_front 8 (sha256 (codes "event:" ++ name_text n))

  -- `DISCRIMINATORS.find(…)`.
  unfoldable pub find_event : Bytes → List EventName → Option EventName
  unfolding event_discriminator
  find_event d [] = none
  find_event d (n ∷ ns) =
      let rest = find_event d ns in if event_discriminator n == d then some n else rest

  decode_matched : Option EventName → Bytes → Result RangeError (Option PpvEscrowEvent)
  unfolding read_event
  decode_matched none body = ok none
  decode_matched (some n) body = elim (read_all (read_event n) body) [
    | ok e ↦ ok (some e)
    | err e ↦ err e
  ]

  -- `none` is the `null` of data that is no event of this program.
  unfoldable pub decode_escrow_event_data : Bytes → Result RangeError (Option PpvEscrowEvent)
  unfolding find_event decode_matched
  decode_escrow_event_data bytes =
      if ltb (length bytes) 16
      then ok none
      else if take_front 8 bytes == event_ix_tag
      then decode_matched (find_event (take_front 8 (drop 8 bytes)) ppv_escrow_event_names)
          (drop 16 bytes)
      else ok none
