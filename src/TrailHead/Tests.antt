-- ===== src/TrailHead/Tests.antt =====
-- trail_head.py on a log of two entries, with a small function in the place of SHA-256.
use argentum_core.Base.{◌≡◌, refl, List, [], ◌∷◌, ◌++◌, some, none, map, length, ◌⊎◌}
use argentum_core.Bytes.{to_hex, from_hex, hex_digit}
use argentum_core.Bytes.Toy.{toy, repeat, toy_digest}
use argentum_core.Json.{Text, codes, pos, Fields, int, str, obj}
use argentum_core.Json.Equal.{json_eq}
use argentum_core.Utf8.{utf8, has_surrogate, utf8_bytes, utf8_char, utf16_be, utf16_be_char}
use argentum_core.Jcs.{
  jcs_bytes, jcs_dumps, in_profile, canonicalize, insert_key, key_lt, int_in_profile, max_safe,
  bool_text, decimal, digits, escape_all, escaped, int_text, quoted, text_of,
}
use argentum_core.Merkle.{
  ok, MerkleTree, root, get_proof, build_merkle_tree, check_refs, leaf_hashes, tree_over, grow,
  next_level, verify_inclusion, decode_all, leaf_hash, leaf_digest, fold_proof,
}
use argentum_core.Merkle.Shape.{Collision}
use argentum_core.TrailHead.Seal.{sealed_told}
use argentum_core.TrailHead.{
  seal_period, seal_digests, sort_checkpoints, insert_checkpoint, distinct_agents, has_agent,
  one_period, all_end, checkpoint_digests, push_digest, checkpoint_dict, Setup, compute_head,
  entry_preimage, sha256_jcs, entry_dict, Checkpoint, checkpoint_digest, is_hex64, is_hex_text,
  is_prev, is_counter, append_entry, make_checkpoint, checkpoint_of, parse_ts, drop_z,
}
use argentum_core.TrailHead.Verify.{
  complete, proven, check_shape, check_entries, has_shape, check_order, is_range, sort_ints,
  insert_int, check_chain, check_entry, check_anchor, in_root,
}
use argentum_core.TrailHead.Decide.{
  verify_trail, check_agent_seq, check_complete, check_age, compare_heads, conclude,
}
use argentum_core.TrailHead.Chain.{Begins}
use argentum_core.TrailHead.Log.{Log, start, step}
use argentum_core.TrailHead.Made.{Plain}
use argentum_core.TrailHead.Made
use argentum_core.TrailHead.Told.{no_anchor}
use argentum_core.TrailHead.Beginning.{beginning_told, told}
use argentum_core.TrailHead.Sound.{complete_is_whole}

abbrev world : Setup
world = record { sha = toy; iso = λ t. some 0 }

abbrev agent : Text
agent = codes "a1"

abbrev ref : Text
ref = repeat 64 b'a'

abbrev head1 : Text
head1 = codes "af" ++ repeat 62 48

abbrev head2 : Text
head2 = codes "8b" ++ repeat 62 48

abbrev entry1 : Fields
entry1 = entry_dict (some (str agent)) (pos 1) (some (str ref)) none none head1

abbrev entry2 : Fields
entry2 = entry_dict (some (str agent)) (pos 2) (some (str ref)) (some (str head1)) none head2

abbrev checkpoint : Checkpoint
checkpoint = record {
  agent_id = agent;
  period_end = codes "Z";
  seq = int (pos 2);
  head = str head2;
}

abbrev sealed_root : Text
sealed_root = codes "b5" ++ repeat 62 48

log_made : Log world agent (entry1 ∷ entry2 ∷ [])
unfolding append_entry compute_head entry_preimage sha256_jcs is_hex64 is_hex_text from_hex is_prev
    is_counter jcs_bytes jcs_dumps in_profile canonicalize insert_key key_lt utf16_be utf16_be_char
    int_in_profile max_safe utf8 has_surrogate hex_digit to_hex toy_digest bool_text decimal digits
    escape_all escaped int_text quoted text_of utf8_bytes utf8_char
log_made = step (step start ref none refl) ref none refl

complete_is_whole_example :
    ((es : List Fields) × ((obj entry1 ∷ obj entry2 ∷ [] ≡ map obj es)
        × (Begins es (entry1 ∷ entry2 ∷ []) × (proven ≡ proven → length es ≡ 2))))
    ⊎ Collision toy
unfolding verify_trail make_checkpoint checkpoint_of parse_ts drop_z check_shape check_entries
    has_shape check_order is_range sort_ints insert_int check_chain check_entry check_anchor
    check_agent_seq check_complete in_root verify_inclusion decode_all leaf_hash leaf_digest
    fold_proof check_age compare_heads conclude checkpoint_digest json_eq compute_head
    entry_preimage sha256_jcs is_hex64 is_hex_text from_hex is_prev is_counter jcs_bytes jcs_dumps
    in_profile canonicalize insert_key key_lt utf16_be utf16_be_char int_in_profile max_safe utf8
    has_surrogate hex_digit to_hex toy_digest bool_text decimal digits escape_all escaped int_text
    quoted text_of utf8_bytes utf8_char
complete_is_whole_example =
    complete_is_whole world agent (codes "Z") (entry1 ∷ entry2 ∷ []) checkpoint
      (obj entry1 ∷ obj entry2 ∷ []) (some []) (some sealed_root) none none
      (record { dict = none; proof = none; root = none })
      (record { verdict = complete; completeness = proven; at_seq = none; reason = none }) log_made
      refl refl refl

plain_made : Plain world agent (entry1 ∷ entry2 ∷ [])
unfolding append_entry compute_head entry_preimage sha256_jcs is_hex64 is_hex_text from_hex is_prev
    is_counter jcs_bytes jcs_dumps in_profile canonicalize insert_key key_lt utf16_be utf16_be_char
    int_in_profile max_safe utf8 has_surrogate hex_digit to_hex toy_digest bool_text decimal digits
    escape_all escaped int_text quoted text_of utf8_bytes utf8_char
plain_made = Made.step (Made.step Made.start ref refl) ref refl

-- The second entry is kept back.
beginning_told_example :
    verify_trail world
      (obj entry1 ∷ [])
      (record {
        dict = some (checkpoint_dict checkpoint);
        proof = some [];
        root = some sealed_root;
      })
      none
      none
      no_anchor
      1
    ≡ told 1 (entry2 ∷ [])
unfolding make_checkpoint checkpoint_of parse_ts drop_z checkpoint_digest verify_inclusion
    decode_all leaf_hash leaf_digest fold_proof compute_head entry_preimage sha256_jcs is_hex64
    is_hex_text from_hex is_prev is_counter jcs_bytes jcs_dumps in_profile canonicalize insert_key
    key_lt utf16_be utf16_be_char int_in_profile max_safe utf8 has_surrogate hex_digit to_hex
    toy_digest bool_text decimal digits escape_all escaped int_text quoted text_of utf8_bytes
    utf8_char
beginning_told_example =
    beginning_told world agent (codes "Z") entry1 [] (entry2 ∷ []) checkpoint
      (codes "60" ++ repeat 62 48) [] sealed_root plain_made refl refl refl

abbrev tree : MerkleTree
tree = record {
  action_refs = (codes "60" ++ repeat 62 48) ∷ [];
  levels = (toy_digest (0 ∷ 0x60 ∷ repeat 31 0) ∷ []) ∷ [];
}

sealed_told_example :
    (d : Text) × (proof : List Text) × (r : Text) × (checkpoint_digest world
        (checkpoint_dict checkpoint)
      ≡ some d)
    × (get_proof d tree ≡ ok proof)
    × (root tree ≡ some r)
    × (verify_trail world
          (obj entry1 ∷ [])
          (record { dict = some (checkpoint_dict checkpoint); proof = some proof; root = some r })
          none
          none
          no_anchor
          1
        ≡ told 1 (entry2 ∷ []))
unfolding make_checkpoint checkpoint_of parse_ts drop_z checkpoint_digest seal_period seal_digests
    sort_checkpoints insert_checkpoint distinct_agents has_agent one_period all_end
    checkpoint_digests push_digest build_merkle_tree check_refs leaf_hashes decode_all leaf_digest
    leaf_hash tree_over grow next_level compute_head entry_preimage sha256_jcs is_hex64 is_hex_text
    from_hex is_prev is_counter jcs_bytes jcs_dumps in_profile canonicalize insert_key key_lt
    utf16_be utf16_be_char int_in_profile max_safe utf8 has_surrogate hex_digit to_hex toy_digest
    bool_text decimal digits escape_all escaped int_text quoted text_of utf8_bytes utf8_char
sealed_told_example =
    sealed_told world agent (codes "Z") entry1 [] (entry2 ∷ []) (checkpoint ∷ []) 0 checkpoint tree
      ((codes "60" ++ repeat 62 48) ∷ []) plain_made refl refl refl
