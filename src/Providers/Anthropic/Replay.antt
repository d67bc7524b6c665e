-- ===== src/Providers/Anthropic/Replay.antt =====
-- llms/providers/anthropic/convert.go: a response is sent back as it came, thinking included.
use maestro_llms.Base.{
  ◌≡◌, ◌≢◌, refl, sym, ap, ◌∙◌, String, false, some, List, [], ◌∷◌, ◌++◌, append-nil, append_assoc,
  ok, str_eq, str_eq_iff, Bool-cases, inl, inr,
}
use maestro_llms.Llms.Message.{Bytes, ContentPart, text_part, call_part}
use maestro_llms.Providers.Requests.{Converted}
use maestro_llms.Providers.Anthropic.{
  Block, Blocks, CacheBudget, ThinkingCodec, ThinkingWire, add_other, add_text, add_part, add_parts,
  blocks_for_parts, thinking_block_param, block_of_wire,
}
use maestro_llms.Providers.Anthropic.Responses.{
  ResponseBlock, WireMessage, thinking_wire, redacted_wire, wire_of, encoded_part, reasoning_part,
  thinking_part, parts_of, all_parts, to_response, call_of,
}

-- The blocks of a request that stand for a block of a response; one of a type that the adapter does
-- not know is dropped.
unfoldable pub sent_back : List ResponseBlock → List Block
sent_back [] = []
sent_back (ResponseBlock.text t ∷ bs) = Block.text t false ∷ sent_back bs
sent_back (ResponseBlock.thinking t signature ∷ bs) = Block.thinking signature t ∷ sent_back bs
sent_back (ResponseBlock.redacted_thinking d ∷ bs) = Block.redacted d ∷ sent_back bs
sent_back (ResponseBlock.tool_use id name input ∷ bs) = Block.tool_use id input name ∷ sent_back bs
sent_back (ResponseBlock.other t ∷ bs) = sent_back bs

-- encoding/json gives a thinkingWire back as it was.
abbrev pub RoundTrips : ThinkingCodec → ThinkingWire → Type 0
RoundTrips codec w =
    (encoded : Bytes) × (codec.marshal w ≡ some encoded) × (codec.unmarshal encoded ≡ some w)

-- Blocks that can be sent back: no text is empty, no thinking unsigned, no redacted thinking
-- without data, and the JSON encoding of thinking round trips.
abbrev pub Filled : ThinkingCodec → List ResponseBlock → Type 0
Filled codec [] = Unit
Filled codec (ResponseBlock.text t ∷ bs) = (t ≢ "") × Filled codec bs
Filled codec (ResponseBlock.thinking t signature ∷ bs) =
    (signature ≢ "") × RoundTrips codec (thinking_wire t signature) × Filled codec bs
Filled codec (ResponseBlock.redacted_thinking d ∷ bs) =
    (d ≢ "") × RoundTrips codec (redacted_wire d) × Filled codec bs
Filled codec (b ∷ bs) = Filled codec bs

not_empty : (t : String) → t ≢ "" → str_eq t "" ≡ false
not_empty t h = elim (Bool-cases (str_eq t "")) [
  | inl empty ↦ absurd (h ((str_eq_iff t "").0 empty))
  | inr full ↦ full
]

-- What a further block and then the rest come to.
grown :
    (b : Block) (rest : List Block) (s : Blocks)
    → Path
        (Converted Blocks)
        (ok (record s { others = (s.others ++ b ∷ []) ++ rest }))
        (ok (record s { others = s.others ++ b ∷ rest }))
grown b rest s = ap (λ bs. ok (record s { others = bs })) (append_assoc s.others (b ∷ []) rest)

module _ (codec : ThinkingCodec) where
  no_parts : (s : Blocks) → add_parts codec [] s ≡ ok s
  unfolding add_parts
  no_parts s = refl

  -- One part that adds a block of its own.
  one_block :
      (p : ContentPart) (ps : List ContentPart) (s : Blocks) (b : Block)
      → add_part codec p.type p s ≡ ok (add_other b s)
      → add_parts codec (p ∷ ps) s ≡ add_parts codec ps (add_other b s)
  unfolding add_parts
  one_block p ps s b h = rw h refl

  thinking_again :
      (w : ThinkingWire) (readable : String) (ps : List ContentPart) (s : Blocks) (b : Block)
      → RoundTrips codec w
      → block_of_wire codec w.type w ≡ ok b
      → add_parts codec (encoded_part codec (some (w, readable)) ++ ps) s
        ≡ add_parts codec ps (add_other b s)
  unfolding encoded_part add_part thinking_block_param
  thinking_again w readable ps s b faithful made =
      let (encoded, out, back) = faithful in
      rw (out, encoded_part)
        (one_block (thinking_part readable encoded) ps s b (rw (back, made) refl))

  add_parts-sent_back :
      (bs : List ResponseBlock) (s : Blocks)
      → Filled codec bs
      → add_parts codec (all_parts codec bs) s ≡ ok (record s { others = s.others ++ sent_back bs })
  unfolding all_parts parts_of sent_back add_text add_part block_of_wire reasoning_part wire_of
  add_parts-sent_back [] s h =
      no_parts s ∙ ap (λ bs. ok (record s { others = bs })) (sym (append-nil s.others))
  add_parts-sent_back (ResponseBlock.text t ∷ bs) s h =
      one_block (text_part t) (all_parts codec bs) s (Block.text t false)
        (rw (not_empty t h.0) refl)
      ∙ add_parts-sent_back bs (add_other (Block.text t false) s) h.1
      ∙ grown (Block.text t false) (sent_back bs) s
  add_parts-sent_back (ResponseBlock.thinking t signature ∷ bs) s h =
      thinking_again (thinking_wire t signature) t (all_parts codec bs) s
        (Block.thinking signature t) h.1 (rw (not_empty signature h.0) refl)
      ∙ add_parts-sent_back bs (add_other (Block.thinking signature t) s) h.2
      ∙ grown (Block.thinking signature t) (sent_back bs) s
  add_parts-sent_back (ResponseBlock.redacted_thinking d ∷ bs) s h =
      thinking_again (redacted_wire d) "" (all_parts codec bs) s (Block.redacted d) h.1
        (rw (not_empty d h.0) refl)
      ∙ add_parts-sent_back bs (add_other (Block.redacted d) s) h.2
      ∙ grown (Block.redacted d) (sent_back bs) s
  add_parts-sent_back (ResponseBlock.tool_use id name input ∷ bs) s h =
      one_block (call_part (call_of id name input)) (all_parts codec bs) s
        (Block.tool_use id input name) refl
      ∙ add_parts-sent_back bs (add_other (Block.tool_use id input name) s) h
      ∙ grown (Block.tool_use id input name) (sent_back bs) s
  add_parts-sent_back (ResponseBlock.other t ∷ bs) s h = add_parts-sent_back bs s h

  -- Where the server's blocks can be sent back (no empty text, no unsigned thinking, no redacted
  -- thinking without data, and a JSON encoding of thinking that round trips), the message that toResponse makes converts back to the blocks of the response, in order: texts, calls with ID,
  -- name and input, thinking with its signature, redacted thinking with its data. Only blocks of
  -- unknown types are missing; there is no tool result, and no cache marker is spent.
  pub to_response-blocks_for_parts :
      (msg : WireMessage) (b : CacheBudget)
      → Filled codec msg.content
      → blocks_for_parts codec (to_response codec msg).message.content b
        ≡ ok (record { results = []; others = sent_back msg.content; budget = b })
  unfolding to_response blocks_for_parts
  to_response-blocks_for_parts msg b h =
      add_parts-sent_back msg.content (record { results = []; others = []; budget = b }) h
