-- ===== src/Filters/Keys.antt =====
-- Filter keys in a URL are read as they are written (pkg/filters/filters.go, `parseFilterKey`).
use gomyadmin.Base.{
  ◌≡◌, ap, ◌∙◌, ◌≢◌, true, some, [], ◌++◌, append_assoc, Str, str_eq, arith, str_beq_iff,
}
use gomyadmin.Text.{lit, has_suffix}
use gomyadmin.Text.Laws.{
  Lacks, has_prefix-append, has_suffix-append, trim_prefix-append, trim_suffix-append,
  trim_suffix-Lacks, split_pair-one, split_pair-two,
}
use gomyadmin.Filters.{parse_filter_key}

-- `filter[field]` and `filter[field][op]`
abbrev pub plain_key : Str → Str
plain_key field = lit "filter[" ++ (field ++ lit "]")

abbrev pub operator_key : Str → Str → Str
operator_key field op = lit "filter[" ++ (field ++ (lit "][" ++ op ++ lit "]"))

-- A key without an operator gives the field and no operator, for a nonempty field without "]".
pub parse_filter_key-plain_key :
    (field : Str)
    → Lacks b']' field
    → field ≢ []
    → parse_filter_key (plain_key field) ≡ some (field, [])
unfolding parse_filter_key
parse_filter_key-plain_key field h ne =
    let p = has_prefix-append (lit "filter[") (field ++ lit "]") in
    let s = has_suffix-append (lit "filter[" ++ field) (lit "]") in
    rw (p, s, trim_prefix-append (lit "filter[") (field ++ lit "]"))
      (rw (split_pair-one b']' b'[' field h, trim_suffix-append field (lit "]"))
        (ground (arith, str_beq_iff field [])))

-- A key with an operator gives the field and the operator, for a nonempty field and an operator,
-- both without "]".
pub parse_filter_key-operator_key :
    (field op : Str)
    → Lacks b']' field
    → Lacks b']' op
    → field ≢ []
    → parse_filter_key (operator_key field op) ≡ some (field, op)
unfolding parse_filter_key
parse_filter_key-operator_key field op h k ne =
    let tail = field ++ (lit "][" ++ op ++ lit "]") in
    let whole = lit "filter[" ++ (field ++ (lit "][" ++ op)) in
    let p = has_prefix-append (lit "filter[") tail in
    let e : operator_key field op ≡ whole ++ lit "]" = simp append_assoc in
    let s : has_suffix (operator_key field op) (lit "]") ≡ true =
      ap (λ z. has_suffix z (lit "]")) e ∙ has_suffix-append whole (lit "]") in
    rw (p, s, trim_prefix-append (lit "filter[") tail)
      (rw (split_pair-two b']' b'[' field op h k) (
        rw (trim_suffix-Lacks b']' field h, trim_suffix-append op (lit "]"))
          (ground (arith, str_beq_iff field []))))
