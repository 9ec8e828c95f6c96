-- ===== src/Words.antt =====
-- The strings of the requests and messages (lib/stream.c, lib/source.c, and the tables of
-- lib/messagerouting.c and server/messagerouting.c).
use svr.Base.{[], ◌∷◌, Bytes}

-- "Stream.open"
abbrev pub stream_open_word : Bytes
stream_open_word = b'S' ∷ b't' ∷ b'r' ∷ b'e' ∷ b'a' ∷ b'm' ∷ b'.' ∷ b'o' ∷ b'p' ∷ b'e' ∷ b'n' ∷ []

-- "Stream.attachSource"
abbrev pub stream_attach_word : Bytes
stream_attach_word =
    b'S' ∷ b't' ∷ b'r' ∷ b'e' ∷ b'a' ∷ b'm' ∷ b'.' ∷ b'a' ∷ b't' ∷ b't' ∷ b'a' ∷ b'c' ∷ b'h' ∷ b'S'
    ∷ b'o' ∷ b'u' ∷ b'r' ∷ b'c' ∷ b'e' ∷ []

-- "Stream.close"
abbrev pub stream_close_word : Bytes
stream_close_word =
    b'S' ∷ b't' ∷ b'r' ∷ b'e' ∷ b'a' ∷ b'm' ∷ b'.' ∷ b'c' ∷ b'l' ∷ b'o' ∷ b's' ∷ b'e' ∷ []

-- "Stream.setEncoding"
abbrev pub set_encoding_word : Bytes
set_encoding_word =
    b'S' ∷ b't' ∷ b'r' ∷ b'e' ∷ b'a' ∷ b'm' ∷ b'.' ∷ b's' ∷ b'e' ∷ b't' ∷ b'E' ∷ b'n' ∷ b'c' ∷ b'o'
    ∷ b'd' ∷ b'i' ∷ b'n' ∷ b'g' ∷ []

-- "Stream.resize"
abbrev pub resize_word : Bytes
resize_word =
    b'S' ∷ b't' ∷ b'r' ∷ b'e' ∷ b'a' ∷ b'm' ∷ b'.' ∷ b'r' ∷ b'e' ∷ b's' ∷ b'i' ∷ b'z' ∷ b'e' ∷ []

-- "Stream.setChannels"
abbrev pub set_channels_word : Bytes
set_channels_word =
    b'S' ∷ b't' ∷ b'r' ∷ b'e' ∷ b'a' ∷ b'm' ∷ b'.' ∷ b's' ∷ b'e' ∷ b't' ∷ b'C' ∷ b'h' ∷ b'a' ∷ b'n'
    ∷ b'n' ∷ b'e' ∷ b'l' ∷ b's' ∷ []

-- "Stream.setPriority"
abbrev pub set_priority_word : Bytes
set_priority_word =
    b'S' ∷ b't' ∷ b'r' ∷ b'e' ∷ b'a' ∷ b'm' ∷ b'.' ∷ b's' ∷ b'e' ∷ b't' ∷ b'P' ∷ b'r' ∷ b'i' ∷ b'o'
    ∷ b'r' ∷ b'i' ∷ b't' ∷ b'y' ∷ []

-- "Stream.setDropRate"
abbrev pub set_drop_rate_word : Bytes
set_drop_rate_word =
    b'S' ∷ b't' ∷ b'r' ∷ b'e' ∷ b'a' ∷ b'm' ∷ b'.' ∷ b's' ∷ b'e' ∷ b't' ∷ b'D' ∷ b'r' ∷ b'o' ∷ b'p'
    ∷ b'R' ∷ b'a' ∷ b't' ∷ b'e' ∷ []

-- "Stream.unpause"
abbrev pub unpause_word : Bytes
unpause_word =
    b'S' ∷ b't' ∷ b'r' ∷ b'e' ∷ b'a' ∷ b'm' ∷ b'.' ∷ b'u' ∷ b'n' ∷ b'p' ∷ b'a' ∷ b'u' ∷ b's' ∷ b'e'
    ∷ []

-- "Stream.pause"
abbrev pub pause_word : Bytes
pause_word = b'S' ∷ b't' ∷ b'r' ∷ b'e' ∷ b'a' ∷ b'm' ∷ b'.' ∷ b'p' ∷ b'a' ∷ b'u' ∷ b's' ∷ b'e' ∷ []

-- "Source.open"
abbrev pub source_open_word : Bytes
source_open_word = b'S' ∷ b'o' ∷ b'u' ∷ b'r' ∷ b'c' ∷ b'e' ∷ b'.' ∷ b'o' ∷ b'p' ∷ b'e' ∷ b'n' ∷ []

-- "Source.close"
abbrev pub source_close_word : Bytes
source_close_word =
    b'S' ∷ b'o' ∷ b'u' ∷ b'r' ∷ b'c' ∷ b'e' ∷ b'.' ∷ b'c' ∷ b'l' ∷ b'o' ∷ b's' ∷ b'e' ∷ []

-- "Source.setEncoding"
abbrev pub source_encoding_word : Bytes
source_encoding_word =
    b'S' ∷ b'o' ∷ b'u' ∷ b'r' ∷ b'c' ∷ b'e' ∷ b'.' ∷ b's' ∷ b'e' ∷ b't' ∷ b'E' ∷ b'n' ∷ b'c' ∷ b'o'
    ∷ b'd' ∷ b'i' ∷ b'n' ∷ b'g' ∷ []

-- "Source.setFrameProperties"
abbrev pub source_properties_word : Bytes
source_properties_word =
    b'S' ∷ b'o' ∷ b'u' ∷ b'r' ∷ b'c' ∷ b'e' ∷ b'.' ∷ b's' ∷ b'e' ∷ b't' ∷ b'F' ∷ b'r' ∷ b'a' ∷ b'm'
    ∷ b'e' ∷ b'P' ∷ b'r' ∷ b'o' ∷ b'p' ∷ b'e' ∷ b'r' ∷ b't' ∷ b'i' ∷ b'e' ∷ b's' ∷ []

-- "Source.getSourcesList"
abbrev pub list_sources_word : Bytes
list_sources_word =
    b'S' ∷ b'o' ∷ b'u' ∷ b'r' ∷ b'c' ∷ b'e' ∷ b'.' ∷ b'g' ∷ b'e' ∷ b't' ∷ b'S' ∷ b'o' ∷ b'u' ∷ b'r'
    ∷ b'c' ∷ b'e' ∷ b's' ∷ b'L' ∷ b'i' ∷ b's' ∷ b't' ∷ []

-- "Data"
abbrev pub data_word : Bytes
data_word = b'D' ∷ b'a' ∷ b't' ∷ b'a' ∷ []

-- "Stream.orphaned"
abbrev pub orphaned_word : Bytes
orphaned_word =
    b'S' ∷ b't' ∷ b'r' ∷ b'e' ∷ b'a' ∷ b'm' ∷ b'.' ∷ b'o' ∷ b'r' ∷ b'p' ∷ b'h' ∷ b'a' ∷ b'n' ∷ b'e'
    ∷ b'd' ∷ []

-- "1"
abbrev pub one_word : Bytes
one_word = b'1' ∷ []

-- "0"
abbrev pub zero_word : Bytes
zero_word = b'0' ∷ []

-- "Event.register"
abbrev pub register_word : Bytes
register_word =
    b'E' ∷ b'v' ∷ b'e' ∷ b'n' ∷ b't' ∷ b'.' ∷ b'r' ∷ b'e' ∷ b'g' ∷ b'i' ∷ b's' ∷ b't' ∷ b'e' ∷ b'r'
    ∷ []

-- "Event.unregister"
abbrev pub unregister_word : Bytes
unregister_word =
    b'E' ∷ b'v' ∷ b'e' ∷ b'n' ∷ b't' ∷ b'.' ∷ b'u' ∷ b'n' ∷ b'r' ∷ b'e' ∷ b'g' ∷ b'i' ∷ b's' ∷ b't'
    ∷ b'e' ∷ b'r' ∷ []

-- "SVR.kick"
abbrev pub kicked_word : Bytes
kicked_word = b'S' ∷ b'V' ∷ b'R' ∷ b'.' ∷ b'k' ∷ b'i' ∷ b'c' ∷ b'k' ∷ []
