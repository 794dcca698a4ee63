-- ===== src/Redact/Tests.antt =====
-- Redactions of concrete texts, and the theorems at them.
use teamem_server.Prelude.{◌≡◌, refl}
use teamem_server.Concepts.Contract.{codes}
use teamem_server.Redact.{
  strip_string, strip_private_tags, text, array, object, atom, item, no_items, field, no_fields,
}
use teamem_server.Redact.Scan.{outside, scan, strip_string-scan}

strip_tree_test :
    strip_private_tags (
      object (
        field
          (codes "a")
          (array (item (text (codes "x<private>y</private>z")) no_items))
          (field (codes "b") (atom 1) no_fields)))
    ≡ object (
        field
          (codes "a")
          (array (item (text (codes "xz")) no_items))
          (field (codes "b") (atom 1) no_fields))
unfolding strip_private_tags
strip_tree_test = refl

-- What is left around a section can itself spell a section.
strip_spliced_test :
    strip_string (codes "<pri<private></private>vate>key</private>")
    ≡ codes "<private>key</private>"
unfolding strip_string
strip_spliced_test = refl

strip_string-scan_example :
    strip_string (codes "a<private>b</private>c") ≡ scan outside 0 (codes "a<private>b</private>c")
strip_string-scan_example = strip_string-scan (codes "a<private>b</private>c")
