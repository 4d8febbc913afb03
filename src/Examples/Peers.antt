-- ===== src/Examples/Peers.antt =====
-- The trust list of core/src/trust.rs at concrete inputs.
use lmao.Prelude.{◌≡◌, refl, String, none, [], ◌∷◌}
use lmao.Trust.{TrustEntry, TrustList, enforce, put, put_all, from_peers}

abbrev peer : String → String → TrustEntry
peer pubkey nickname = record {
  pubkey = pubkey;
  nickname = nickname;
  capabilities = "code" ∷ [];
  notes = none;
  encryption_pubkey = none;
  added_at = 0;
}

abbrev friends : TrustList
friends = record {
  mode = enforce;
  entries = ("02aa", peer "02aa" "alice") ∷ ("02bb", peer "02bb" "bob") ∷ [];
}

-- The keys are sorted although the file is not.
parsed_in_order : (from_peers enforce (peer "02bb" "bob" ∷ peer "02aa" "alice" ∷ [])) ≡ friends
unfolding from_peers put_all put
parsed_in_order = refl
