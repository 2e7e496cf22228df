-- ===== src/Text.antt =====
-- What the program uses of Python's text: str() and int(), bytes.hex() and bytes.fromhex(),
-- str.split() and ",".join(). The texts of the program are ASCII, so a text is the list of its
-- characters' codes, and encode() and decode() are the identity.
pub mod Decimal
pub mod Hex
pub mod Split
