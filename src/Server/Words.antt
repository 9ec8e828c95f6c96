-- ===== src/Server/Words.antt =====
-- The strings of the server's messages.
use svr.Base.{[], ◌∷◌, Bytes}

-- "SVR.response"
abbrev pub response_word : Bytes
response_word =
    b'S' ∷ b'V' ∷ b'R' ∷ b'.' ∷ b'r' ∷ b'e' ∷ b's' ∷ b'p' ∷ b'o' ∷ b'n' ∷ b's' ∷ b'e' ∷ []

-- "SVR.kick"
abbrev pub kick_word : Bytes
kick_word = b'S' ∷ b'V' ∷ b'R' ∷ b'.' ∷ b'k' ∷ b'i' ∷ b'c' ∷ b'k' ∷ []

-- "Invalid message"
abbrev pub invalid_message : Bytes
invalid_message =
    b'I' ∷ b'n' ∷ b'v' ∷ b'a' ∷ b'l' ∷ b'i' ∷ b'd' ∷ 32 ∷ b'm' ∷ b'e' ∷ b's' ∷ b's' ∷ b'a' ∷ b'g'
    ∷ b'e' ∷ []

-- "Stream.getInfo"
abbrev pub get_info_word : Bytes
get_info_word =
    b'S' ∷ b't' ∷ b'r' ∷ b'e' ∷ b'a' ∷ b'm' ∷ b'.' ∷ b'g' ∷ b'e' ∷ b't' ∷ b'I' ∷ b'n' ∷ b'f' ∷ b'o'
    ∷ []

-- "Source.getSourceList"
abbrev pub sources_list_word : Bytes
sources_list_word =
    b'S' ∷ b'o' ∷ b'u' ∷ b'r' ∷ b'c' ∷ b'e' ∷ b'.' ∷ b'g' ∷ b'e' ∷ b't' ∷ b'S' ∷ b'o' ∷ b'u' ∷ b'r'
    ∷ b'c' ∷ b'e' ∷ b'L' ∷ b'i' ∷ b's' ∷ b't' ∷ []

-- "client"
abbrev pub client_word : Bytes
client_word = b'c' ∷ b'l' ∷ b'i' ∷ b'e' ∷ b'n' ∷ b't' ∷ []

-- "server"
abbrev pub server_word : Bytes
server_word = b's' ∷ b'e' ∷ b'r' ∷ b'v' ∷ b'e' ∷ b'r' ∷ []

-- "jpeg"
abbrev pub jpeg_word : Bytes
jpeg_word = b'j' ∷ b'p' ∷ b'e' ∷ b'g' ∷ []

-- "c:"
abbrev pub client_prefix : Bytes
client_prefix = b'c' ∷ b':' ∷ []

-- "s:"
abbrev pub server_prefix : Bytes
server_prefix = b's' ∷ b':' ∷ []
