-- ===== src/Tests/Packages.antt =====
-- A small go-nostr and a small go-ethereum, which do what those packages document as far as the
-- theorems ask for it.
use Prim.Native.Char.{code}
use demedia_nostr.Prelude.{
  ℕ, zero, suc, String, Bool, true, false, ◌==◌, ◌&&◌, none, some, [], ◌∷◌, ◌++◌, any, ◌≡◌, refl,
  ap, ◌∙◌, arith, pos, int_beq, nat_beq, nat_beq_iff, if◌then◌else◌,
}
use demedia_nostr.Prelude.Hex.{Bytes}
use demedia_nostr.Nostr.{Nostr, Event, Filter, ok}
use demedia_nostr.HashUtil.{Crypto, drop_last}
use demedia_nostr.HashUtil.Laws.{IsLawful}

-- A filter matches the events of its kinds.
abbrev pub has_kind_of : Filter → Event → Bool
has_kind_of f evt = elim f.kinds [ none ↦ true | some kinds ↦ any (λ k. int_beq k evt.kind) kinds ]

abbrev pub nostr : Nostr
nostr = record {
  serialize = λ evt. evt.content;
  check_signature = λ evt. ok (evt.sig == "good");
  filters_match = λ fs evt. any (λ f. has_kind_of f evt) fs;
  filter_equal = λ f g. int_beq f.limit g.limit;
  append_unique = λ tags tag. tags ++ (tag ∷ []);
  validate_auth_event =
      λ evt challenge url. if evt.content == challenge then some evt.pub_key else none;
  tags_get_first_value = λ tags name. none;
  kind_set_metadata = pos 0;
  kind_recommend_server = pos 2;
  kind_contact_list = pos 3;
}

-- Bytes in unary, each with a comma after it.
abbrev pub unary : ℕ → String → String
unary zero s = String.◌∷◌ "," s
unary (suc n) s = String.◌∷◌ "1" (unary n s)

unfoldable pub encode : Bytes → String
encode [] = ""
encode (b ∷ bs) = unary b (encode bs)

abbrev pub increment : Bytes → Bytes
increment [] = []
increment (b ∷ bs) = suc b ∷ bs

unfoldable pub decode : String → Bytes
decode String.[] = []
decode (String.◌∷◌ c s) =
    let rest = decode s in if nat_beq (code c) b',' then 0 ∷ rest else increment rest

decode-unary : (b : ℕ) (s : String) → decode (unary b s) ≡ b ∷ decode s
unfolding decode
decode-unary zero s = refl
decode-unary (suc b) s = ap increment (decode-unary b s)

decode-encode : (bs : Bytes) → decode (encode bs) ≡ bs
unfolding encode decode
decode-encode [] = refl
decode-encode (b ∷ bs) = decode-unary b (encode bs) ∙ ap (λ (x : Bytes). b ∷ x) (decode-encode bs)

abbrev pub bytes_beq : Bytes → Bytes → Bool
bytes_beq [] [] = true
bytes_beq [] (y ∷ ys) = false
bytes_beq (x ∷ xs) [] = false
bytes_beq (x ∷ xs) (y ∷ ys) = nat_beq x y && bytes_beq xs ys

bytes_beq_refl : (xs : Bytes) → bytes_beq xs xs ≡ true
bytes_beq_refl [] = refl
bytes_beq_refl (x ∷ xs) = ground (arith, nat_beq_iff x x, bytes_beq_refl xs)

drop_last-snoc : (b : ℕ) (bs : Bytes) → drop_last (bs ++ (b ∷ [])) ≡ bs
unfolding drop_last
drop_last-snoc b [] = refl
drop_last-snoc b (x ∷ []) = refl
drop_last-snoc b (x ∷ y ∷ bs) = ap (λ (r : Bytes). x ∷ r) (drop_last-snoc b (y ∷ bs))

-- A signature is the key, the hash and a last byte; the public key is the key.
abbrev pub crypto : Crypto
crypto = record {
  PrivateKey = ℕ;
  PublicKey = ℕ;
  public_key = λ k. k;
  marshal = λ bs. ok bs;
  sha256 = λ s. 7 ∷ [];
  keccak256 = λ bs. 9 ∷ bs;
  sign = λ h k. ok ((k ∷ h) ++ (27 ∷ []));
  encode = encode;
  decode = λ s. ok (decode s);
  from_ecdsa_pub = λ k. k ∷ [];
  verify_signature = λ k h sig. bytes_beq sig (k ++ h);
}

ok-injective : {A : Type 0} (x y : A) → ok x ≡ ok y → x ≡ y
ok-injective x y e = cc

verify_last :
    (h sig : Bytes) (k : ℕ)
    → crypto.sign h k ≡ ok sig
    → bytes_beq (drop_last sig) ((k ∷ []) ++ h) ≡ true
verify_last h sig k e =
    rw (← ok-injective _ _ e) (rw (drop_last-snoc 27 (k ∷ h)) (bytes_beq_refl (k ∷ h)))

pub crypto-IsLawful : IsLawful crypto
crypto-IsLawful = record {
  decode-encode = λ bs. ap ok (decode-encode bs);
  sign-ne-nil = λ h k e. ground arith;
  verify-sign = λ h sig k e. verify_last h sig k e;
}
