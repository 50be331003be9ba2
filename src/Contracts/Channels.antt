-- ===== src/Contracts/Channels.antt =====
-- vocab/contracts.py, section 2: the four channels.
use vocab_system.Base.{
  ◌≡◌, refl, ◌↔◌, Bool, true, false, String, Option, none, some, List, [], ◌∷◌, ℕ, arith,
  if◌then◌else◌,
}
use vocab_system.Base.Text.{str_eq}

pub data Channel : Type 0 where
  reading listening writing speaking : Channel

-- CHANNELS, in the frozen order.
abbrev pub channels : List Channel
channels = reading ∷ listening ∷ writing ∷ speaking ∷ []

abbrev pub channel_text : Channel → String
channel_text reading = "R"
channel_text listening = "L"
channel_text writing = "W"
channel_text speaking = "S"

-- `value in CHANNELS`, with the channel that it names.
unfoldable pub parse_channel : String → Option Channel
parse_channel s =
    if str_eq s "R"
    then some reading
    else if str_eq s "L"
    then some listening
    else if str_eq s "W"
    then some writing
    else if str_eq s "S"
    then some speaking
    else none

abbrev pub channel_eq : Channel → Channel → Bool
channel_eq reading reading = true
channel_eq listening listening = true
channel_eq writing writing = true
channel_eq speaking speaking = true
channel_eq _ _ = false

pub channel_eq_iff : (a b : Channel) → (channel_eq a b ≡ true) ↔ (a ≡ b)
channel_eq_iff a b = ground arith

-- `CHANNELS.index`
abbrev pub channel_index : Channel → ℕ
channel_index reading = 0
channel_index listening = 1
channel_index writing = 2
channel_index speaking = 3

pub parse_channel-channel_text : (c : Channel) → parse_channel (channel_text c) ≡ some c
unfolding parse_channel
parse_channel-channel_text reading = refl
parse_channel-channel_text listening = refl
parse_channel-channel_text writing = refl
parse_channel-channel_text speaking = refl
