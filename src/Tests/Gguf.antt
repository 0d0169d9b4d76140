-- ===== src/Tests/Gguf.antt =====
-- A model file with two entries.
use llama_rack.Base.{◌≤◌, ◌≡◌, refl, ◌∙◌, true, List, [], ◌∷◌, ◌++◌, arith, false, length}
use llama_rack.Base.Text.{codes, format_natural, parse_int, text_eq}
use llama_rack.Gguf.{Bytes, Source, done, max_metadata_count, max_retained_metadata_bytes}
use llama_rack.Gguf.Values.{Printer}
use llama_rack.Gguf.Inspect.{
  Inspection, inspect, with_trunk, summary_features, derive, parse_count, exact_int,
  is_standalone_mtp_architecture,
}
use llama_rack.Gguf.Trim.{trim_bytes, lower_bytes}
use llama_rack.Base.Maps.{lookup, put}
use llama_rack.Gguf.Encode.{Item, word, unsigned, boolean, text, put_items, put_file, shown_bytes}
use llama_rack.Gguf.RoundTrip.{at}
use llama_rack.Gguf.RoundTrip.Files.{after, inspection, features_of, inspect-put_file}
use llama_rack.Gguf.Bounds.Entries.{held, inspect-bounds}

abbrev printer : Printer
printer = record { float32 = format_natural; float64 = format_natural; quote = λ s. s }

abbrev items : List Item
items =
    record { key = codes "general.architecture"; scalar = text (codes "llama") }
    ∷ record { key = codes "llama.block_count"; scalar = unsigned word 32 }
    ∷ []

abbrev file : Bytes
file = put_file 3 0 items

inspect-put_file_example :
    inspect printer (file ++ [])
    ≡ after printer 3 0 items (at false [] (length (put_items items)) (shown_bytes printer items))
unfolding put_items llama_rack.Gguf.Encode.put_uint format_natural llama_rack.Base.Text.push_digits
inspect-put_file_example =
    inspect-put_file printer 3 0 items [] (omega arith) (omega arith) (omega arith) (omega arith)
      ((omega arith, omega arith), ((omega arith, omega arith), tt)) (omega arith) (omega arith)

-- A file with one entry, and how its inspection ends.
abbrev one_item : List Item
one_item = record { key = codes "a"; scalar = boolean true } ∷ []

abbrev seen : Inspection
seen = inspection printer 3 0 one_item (features_of printer one_item)

abbrev left : Source
left = at false [] (length (put_items one_item)) (shown_bytes printer one_item)

no_tensors : after printer 3 0 one_item left ≡ done seen left
unfolding with_trunk summary_features derive lookup put trim_bytes parse_count parse_int lower_bytes
    exact_int text_eq is_standalone_mtp_architecture
no_tensors = refl

inspect-bounds_example :
    (length seen.metadata ≤ max_metadata_count) × (held seen.metadata ≤ max_retained_metadata_bytes)
unfolding put_items llama_rack.Gguf.Encode.put_uint
inspect-bounds_example = inspect-bounds printer (put_file 3 0 one_item ++ []) seen left (
    inspect-put_file printer 3 0 one_item [] (omega arith) (omega arith) (omega arith) (omega arith)
      ((omega arith, tt), tt) (omega arith) (omega arith)
    ∙ no_tensors)
