-- ===== src/GasQueue/Envelope/Checked.antt =====
-- src/hedp/adapters/fusionsolar/gas_queue_importer.py: what has been checked of a candidate, and of
-- the candidates of one queue together.
use Prim.Native.String.{String}
use hedp.Prelude.{
  ℕ, ◌≤◌, ◌≡◌, refl, sym, ap, ◌∙◌, true, not, ◌||◌, Option, none, some, List, [], ◌∷◌, arith, ltb,
  ◌==◌, ==_iff, length, take, ok, raise_if, raise_if-passed, All, and-true, Ensures, bind-Ensures,
  Ensures-returned,
}
use hedp.Prelude.Bytes.{Bytes}
use hedp.Prelude.Texts.{codes}
use hedp.Prelude.Json.{Json, Members, text, object, get, as_text, as_object, key_set_is}
use hedp.GasQueue.{
  GasQueueError, Candidate, invalid_filename, filename_metadata_mismatch, invalid_envelope_schema,
  value_error, payload_hash_mismatch, payload_text_not_string, payload_too_large,
  payload_not_object,
}
use hedp.GasQueue.Request.{Text, Source, source_text, reject_secrets, validate_request}
use hedp.GasQueue.Request.Allowed.{IsAllowed, validate_request-IsAllowed}
use hedp.GasQueue.Request.Secrets.{IsPlain, keys_within, reject_secrets-AllPlain}
use hedp.GasQueue.Envelope.{
  Library, File, found, read_content, same_text, is_codes, is_version, envelope_keys,
  match_filename, utc_timestamp, validate_payload, check_envelope, read_payload, read_envelope,
  read_matched, read_file, read_files, max_payload_bytes,
}

same_text_sound : (s t : Text) → same_text s t ≡ true → s ≡ t
same_text_sound [] [] same = refl
same_text_sound [] (d ∷ t) same = cc
same_text_sound (c ∷ s) [] same = cc
same_text_sound (c ∷ s) (d ∷ t) same =
    let (here, later) = and-true (c == d) (same_text s t) same in
    ap (λ x. x ∷ s) ((==_iff c d).0 here) ∙ ap (◌∷◌ d) (same_text_sound s t later)

is_codes_sound :
    (value : Json) (t : Text) (s : String)
    → is_codes value t ≡ true
    → as_text value ≡ some s
    → codes s ≡ t
is_codes_sound (text u) t s same is_text =
    let agree : u ≡ s = cc in ap codes (sym agree) ∙ same_text_sound (codes u) t same
is_codes_sound _ t s same is_text = cc

found-some : {A : Type 0} (e : GasQueueError) (o : Option A) (a : A) → found e o ≡ ok a → o ≡ some a
found-some e none a is_found = cc
found-some e (some b) a is_found = let same : b ≡ a = cc in ap some same

as_text_sound : (value : Json) (s : String) → as_text value ≡ some s → value ≡ text s
as_text_sound (text t) s is_text = let same : t ≡ s = cc in ap text same
as_text_sound _ s is_text = cc

as_object_sound : (value : Json) (ms : Members) → as_object value ≡ some ms → value ≡ object ms
as_object_sound (object ns) ms is_object = let same : ns ≡ ms = cc in ap object same
as_object_sound _ ms is_object = cc

module _ (lib : Library) where
  check_envelope-day :
      (source : Source) (day : Text) (envelope : Members)
      → Ensures (λ target. codes target ≡ day) (check_envelope lib source day envelope)
  unfolding check_envelope
  check_envelope-day source day envelope =
      let schema =
        not (key_set_is envelope envelope_keys)
        || not (is_version (get envelope "schema_version")) in
      let other =
        not (is_codes (get envelope "source") (codes (source_text source)))
        || not (is_codes (get envelope "target_date") day) in
      bind-Ensures _ (raise_if schema invalid_envelope_schema) _ λ u _.
        bind-Ensures _ (raise_if other filename_metadata_mismatch) _ λ v matched.
          bind-Ensures _ (found filename_metadata_mismatch (as_text (get envelope "target_date"))) _
            λ target is_target.
              bind-Ensures _ (raise_if (not (lib.is_date target)) value_error) _ λ w _.
                let agrees = raise_if-passed other filename_metadata_mismatch v matched in
                is_codes_sound (get envelope "target_date") day target (ground arith) (
                  found-some filename_metadata_mismatch (as_text (get envelope "target_date"))
                    target is_target)

  -- The payload is what the text of the envelope decodes to; the digest is that of the text, encoded
  -- within its limit, is the one that the envelope tells, and starts with the prefix.
  abbrev pub IsPayload : Text → Members → String × Members → Type 0
  IsPayload prefix envelope (digest, payload) =
      (take 16 (codes digest) ≡ prefix)
      × (is_codes (get envelope "payload_sha256") (codes digest) ≡ true)
      × (payload_text : String) × (get envelope "payload_text" ≡ text payload_text)
      × (bytes : Bytes) × (lib.encode_utf8 payload_text ≡ some bytes)
      × (length bytes ≤ max_payload_bytes)
      × (digest ≡ lib.sha256 bytes)
      × (lib.loads payload_text ≡ ok (object payload))

  read_payload-IsPayload :
      (prefix : Text) (envelope : Members)
      → Ensures (IsPayload prefix envelope) (read_payload lib prefix envelope)
  unfolding read_payload
  read_payload-IsPayload prefix envelope =
      bind-Ensures _ (found payload_text_not_string (as_text (get envelope "payload_text"))) _
        λ payload_text is_payload_text.
          bind-Ensures _ (found value_error (lib.encode_utf8 payload_text)) _ λ bytes encoded.
            bind-Ensures _ (raise_if (ltb max_payload_bytes (length bytes)) payload_too_large) _
              λ u small.
                let digest = lib.sha256 bytes in
                let other =
                  not (is_codes (get envelope "payload_sha256") (codes digest))
                  || not (same_text prefix (take 16 (codes digest))) in
                bind-Ensures _ (raise_if other payload_hash_mismatch) _ λ v matched.
                  bind-Ensures _ (lib.loads payload_text) _ λ value loaded.
                    bind-Ensures _ (found payload_not_object (as_object value)) _
                      λ payload is_object.
                        let agrees = raise_if-passed other payload_hash_mismatch v matched in
                        let fits =
                          raise_if-passed (ltb max_payload_bytes (length bytes)) payload_too_large u
                            small in
                        (
                          sym (same_text_sound prefix (take 16 (codes digest)) (ground arith)),
                          ground arith,
                          payload_text,
                          as_text_sound (get envelope "payload_text") payload_text (
                              found-some payload_text_not_string
                                (as_text (get envelope "payload_text")) payload_text
                                is_payload_text),
                          bytes,
                          found-some value_error (lib.encode_utf8 payload_text) bytes encoded,
                          ground arith,
                          refl,
                          loaded
                              ∙ ap ok (
                                  as_object_sound value payload (
                                    found-some payload_not_object (as_object value) payload
                                      is_object)),
                        )

  -- The candidate is that of a file whose name says its source, its day and the first sixteen digits
  -- of the hash of its payload's text; the envelope that the file holds asks for what is allowed of its
  -- source and tells that payload; no key of the request or of the payload, at any depth, marks a
  -- secret; and the payload has been found valid for its source and day.
  abbrev pub IsChecked : File → Candidate Members → Type 0
  IsChecked file item =
      (source : Source) × (day : Text) × (prefix : Text) × (match_filename lib
          (codes file.file_name)
        ≡ some (source, day, prefix))
      × (item.file_name ≡ file.file_name)
      × (item.source ≡ source_text source)
      × (codes item.target_date ≡ day)
      × (content : Bytes) × (read_content file ≡ ok content)
      × (item.envelope_sha256 ≡ lib.sha256 content)
      × (envelope : Members) × (read_envelope lib content ≡ ok envelope)
      × IsAllowed source (get envelope "request")
      × All (IsPlain lib.lower) (keys_within (get envelope "request"))
      × IsPayload prefix envelope (item.payload_sha256, item.payload)
      × All (IsPlain lib.lower) (keys_within (object item.payload))
      × (validate_payload lib source item.payload item.target_date ≡ ok tt)

  read_matched-IsChecked :
      (now : ℕ) (file : File) (source : Source) (day prefix : Text)
      → match_filename lib (codes file.file_name) ≡ some (source, day, prefix)
      → Ensures (IsChecked file) (read_matched lib now file (source, day, prefix))
  unfolding read_matched
  read_matched-IsChecked now file source day prefix named =
      bind-Ensures _ (read_content file) _ λ content has_content.
        bind-Ensures _ (read_envelope lib content) _ λ envelope is_envelope.
          bind-Ensures _ (check_envelope lib source day envelope) _ λ target is_target.
            bind-Ensures _ (read_payload lib prefix envelope) _ λ read is_read.
              bind-Ensures _ (utc_timestamp lib now (get envelope "collected_at")) _ λ collected _.
                bind-Ensures _ (validate_request source (get envelope "request")) _ λ u allowed.
                  bind-Ensures _ (reject_secrets lib.lower (get envelope "request")) _
                    λ v asks_plain.
                      bind-Ensures _ (reject_secrets lib.lower (object read.1)) _ λ w plain.
                        bind-Ensures _ (validate_payload lib source read.1 target) _ λ x valid. (
                          source,
                          day,
                          prefix,
                          named,
                          refl,
                          refl,
                          Ensures-returned (λ t. codes t ≡ day)
                              (check_envelope lib source day envelope) target
                              (check_envelope-day source day envelope) is_target,
                          content,
                          has_content,
                          refl,
                          envelope,
                          is_envelope,
                          validate_request-IsAllowed source (get envelope "request") u allowed,
                          (reject_secrets-AllPlain lib.lower (get envelope "request")).0 asks_plain,
                          Ensures-returned (IsPayload prefix envelope)
                              (read_payload lib prefix envelope) read
                              (read_payload-IsPayload prefix envelope) is_read,
                          (reject_secrets-AllPlain lib.lower (object read.1)).0 plain,
                          valid,
                        )

  read_file-IsChecked : (now : ℕ) (file : File) → Ensures (IsChecked file) (read_file lib now file)
  unfolding read_file
  read_file-IsChecked now file =
      bind-Ensures _ (found invalid_filename (match_filename lib (codes file.file_name))) _
        λ named is_named.
          read_matched-IsChecked now file named.0 named.1 named.2
            (found-some invalid_filename (match_filename lib (codes file.file_name)) named is_named)

  -- Each file has its candidate, in order.
  abbrev pub AllChecked : List File → List (Candidate Members) → Type 0
  AllChecked [] [] = Unit
  AllChecked (file ∷ files) (item ∷ items) = IsChecked file item × AllChecked files items
  AllChecked _ _ = ⊥

  pub read_files-AllChecked :
      (now : ℕ) (files : List File) → Ensures (AllChecked files) (read_files lib now files)
  unfolding read_files
  read_files-AllChecked now [] = tt
  read_files-AllChecked now (file ∷ files) =
      bind-Ensures _ (read_file lib now file) _ λ first is_first.
        bind-Ensures _ (read_files lib now files) _ λ others are_others. (
          Ensures-returned (IsChecked file) (read_file lib now file) first
              (read_file-IsChecked now file) is_first,
          Ensures-returned (AllChecked files) (read_files lib now files) others
              (read_files-AllChecked now files) are_others,
        )
