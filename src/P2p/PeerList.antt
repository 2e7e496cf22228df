-- ===== src/P2p/PeerList.antt =====
-- _make_peer_list and _parse_peer_list of bcws/p2p.py. What str.encode and bytes.decode make of a
-- text is an interface, with the law that they are documented to have.
use blockchain_workshop.Prelude.{
  ℕ, [], ◌∷◌, ◌++◌, List, ◌≡◌, ◌≢◌, refl, ap, ◌∙◌, inl, Result, ok, ◌>>=◌, Bytes, Text, Lacks, All,
  All-append, arith,
}
use blockchain_workshop.Prelude.Int.{ℤ_eq}
use blockchain_workshop.Text.Decimal.{str, str-Lacks}
use blockchain_workshop.Text.Split.{split, join, split-join}
use blockchain_workshop.Network.Address.{
  TcpAddress, parse_address, address_to_str, parse_address-address_to_str,
}

-- UTF-8, for texts that can be encoded.
pub record Codec : Type 1 where
  pub IsEncodable : Text → Type 0
  pub encode : Text → Bytes
  pub decode : Bytes → Result Text
  pub decode-encode : (t : Text) → IsEncodable t → decode (encode t) ≡ ok t
  pub encode_empty : encode [] ≡ []
  pub IsEncodable_empty : IsEncodable []

unfoldable pub strings : List TcpAddress → List Text
strings [] = []
strings (a ∷ addrs) = address_to_str a ∷ strings addrs

-- [parse_address(addr_str) for addr_str in addr_strs]
unfoldable pub parse_each : List Text → Result (List TcpAddress)
parse_each [] = ok []
parse_each (t ∷ ts) = do addr ← parse_address t; addrs ← parse_each ts; ok (addr ∷ addrs)

module _ (codec : Codec) where
  -- parse_address(payload.decode())
  unfoldable pub decode_address : Bytes → Result TcpAddress
  decode_address payload = do text ← codec.decode payload; parse_address text

  unfoldable pub make_peer_list : List TcpAddress → Bytes
  unfolding strings
  make_peer_list addrs = codec.encode (join b',' (strings addrs))

  unfoldable pub parse_peer_list : Bytes → Result (List TcpAddress)
  unfolding parse_each
  parse_peer_list [] = ok []
  parse_peer_list (b ∷ data') = do text ← codec.decode (b ∷ data'); parse_each (split b',' text)

-- Hosts without a colon, which ends the host, and without a comma, which ends the address.
abbrev pub IsPlain : TcpAddress → Type 0
IsPlain a = Lacks b':' a.0 × Lacks b',' a.0

parse_each-strings :
    (addrs : List TcpAddress) → All IsPlain addrs → parse_each (strings addrs) ≡ ok addrs
unfolding parse_each strings
parse_each-strings [] h = refl
parse_each-strings (a ∷ addrs) h =
    rw (parse_address-address_to_str a h.0.0, parse_each-strings addrs h.1) refl

strings_lack : (addrs : List TcpAddress) → All IsPlain addrs → All (Lacks b',') (strings addrs)
unfolding strings address_to_str
strings_lack [] h = tt
strings_lack (a ∷ addrs) h = (
  All-append (λ d. d ≢ b',') a.0 (b':' ∷ str a.1) h.0.1
      ((λ e. absurd (omega arith)), str-Lacks b',' a.1 (inl (omega arith))),
  strings_lack addrs h.1,
)

append_filled : (p : Text) (c : ℕ) (q : Text) → p ++ c ∷ q ≢ []
append_filled [] c q = λ e. cc e
append_filled (d ∷ p) c q = λ e. cc e

strings_filled : (a : TcpAddress) (addrs : List TcpAddress) → strings (a ∷ addrs) ≢ []
unfolding strings
strings_filled a addrs = λ e. cc e

join_filled : (a : TcpAddress) (addrs : List TcpAddress) → join b',' (strings (a ∷ addrs)) ≢ []
unfolding strings join address_to_str
join_filled a [] = append_filled a.0 b':' (str a.1)
join_filled a (b ∷ addrs) =
    λ e. append_filled (address_to_str a) b',' (join b',' (strings (b ∷ addrs))) e

module _ (codec : Codec) where
  encode_filled : (t : Text) → codec.IsEncodable t → t ≢ [] → codec.encode t ≢ []
  encode_filled t h filled e = filled (
      cc (
        codec.decode-encode t h,
        codec.decode-encode [] codec.IsEncodable_empty,
        codec.encode_empty,
        e,
      ))

  parse_nothing : parse_peer_list codec [] ≡ ok []
  unfolding parse_peer_list
  parse_nothing = refl

  parse_bytes :
      (data' : Bytes) (t : Text)
      → data' ≢ []
      → codec.decode data' ≡ ok t
      → parse_peer_list codec data' ≡ parse_each (split b',' t)
  unfolding parse_peer_list
  parse_bytes [] t h e = absurd (h refl)
  parse_bytes (b ∷ data') t h e = rw e refl

  -- A list of addresses whose hosts hold neither a colon nor a comma, and whose text can be
  -- encoded, is read back from the bytes that are sent for it; also when it is empty.
  pub parse_peer_list-make_peer_list :
      (addrs : List TcpAddress)
      → All IsPlain addrs
      → codec.IsEncodable (join b',' (strings addrs))
      → parse_peer_list codec (make_peer_list codec addrs) ≡ ok addrs
  unfolding make_peer_list strings join
  parse_peer_list-make_peer_list [] h enc =
      ap (parse_peer_list codec) codec.encode_empty ∙ parse_nothing
  parse_peer_list-make_peer_list (a ∷ addrs) h enc =
      let text = join b',' (strings (a ∷ addrs)) in
      parse_bytes (codec.encode text) text (encode_filled text enc (join_filled a addrs))
        (codec.decode-encode text enc)
      ∙ ap parse_each (
          split-join b',' (strings (a ∷ addrs)) (strings_filled a addrs)
            (strings_lack (a ∷ addrs) h))
      ∙ parse_each-strings (a ∷ addrs) h
