-- ===== src/Plagiarism/Keywords.antt =====
-- core/src/service/plagiarism/tokenizer.ts: the keywords of the languages.
use Prim.Native.String.{String}
use mathlib.Core.List.{List, [], ◌∷◌}

-- `Language`
pub data Language : Type 0 where
  cpp python javascript java go rust : Language

-- `KEYWORD_SETS`
abbrev pub keyword_sets : Language → List String
keyword_sets cpp =
    "if" ∷ "else" ∷ "for" ∷ "while" ∷ "do" ∷ "switch" ∷ "case" ∷ "break" ∷ "continue" ∷ "return"
    ∷ "void" ∷ "int" ∷ "long" ∷ "float" ∷ "double" ∷ "char" ∷ "bool" ∷ "true" ∷ "false" ∷ "const"
    ∷ "static" ∷ "auto" ∷ "class" ∷ "struct" ∷ "public" ∷ "private" ∷ "protected" ∷ "virtual"
    ∷ "override" ∷ "template" ∷ "typename" ∷ "using" ∷ "namespace" ∷ "include" ∷ "define" ∷ "ifdef"
    ∷ "ifndef" ∷ "endif" ∷ "new" ∷ "delete" ∷ "try" ∷ "catch" ∷ "throw" ∷ "noexcept" ∷ "nullptr"
    ∷ "sizeof" ∷ "typedef" ∷ "enum" ∷ "union" ∷ "extern" ∷ "register" ∷ "volatile" ∷ "inline"
    ∷ "explicit" ∷ "friend" ∷ "mutable" ∷ "operator" ∷ []
keyword_sets python =
    "if" ∷ "elif" ∷ "else" ∷ "for" ∷ "while" ∷ "break" ∷ "continue" ∷ "return" ∷ "def" ∷ "class"
    ∷ "import" ∷ "from" ∷ "as" ∷ "with" ∷ "try" ∷ "except" ∷ "finally" ∷ "raise" ∷ "pass" ∷ "lambda"
    ∷ "yield" ∷ "assert" ∷ "del" ∷ "global" ∷ "nonlocal" ∷ "True" ∷ "False" ∷ "None" ∷ "and" ∷ "or"
    ∷ "not" ∷ "in" ∷ "is" ∷ "self" ∷ []
keyword_sets javascript =
    "if" ∷ "else" ∷ "for" ∷ "while" ∷ "do" ∷ "switch" ∷ "case" ∷ "break" ∷ "continue" ∷ "return"
    ∷ "function" ∷ "var" ∷ "let" ∷ "const" ∷ "class" ∷ "import" ∷ "export" ∷ "from" ∷ "default"
    ∷ "new" ∷ "this" ∷ "try" ∷ "catch" ∷ "finally" ∷ "throw" ∷ "async" ∷ "await" ∷ "yield"
    ∷ "typeof" ∷ "instanceof" ∷ "in" ∷ "of" ∷ "true" ∷ "false" ∷ "null" ∷ "undefined" ∷ "void"
    ∷ "delete" ∷ "super" ∷ "extends" ∷ "static" ∷ "get" ∷ "set" ∷ []
keyword_sets java =
    "if" ∷ "else" ∷ "for" ∷ "while" ∷ "do" ∷ "switch" ∷ "case" ∷ "break" ∷ "continue" ∷ "return"
    ∷ "void" ∷ "int" ∷ "long" ∷ "float" ∷ "double" ∷ "char" ∷ "boolean" ∷ "true" ∷ "false" ∷ "class"
    ∷ "interface" ∷ "extends" ∷ "implements" ∷ "new" ∷ "this" ∷ "super" ∷ "try" ∷ "catch"
    ∷ "finally" ∷ "throw" ∷ "throws" ∷ "public" ∷ "private" ∷ "protected" ∷ "static" ∷ "final"
    ∷ "abstract" ∷ "synchronized" ∷ "volatile" ∷ "transient" ∷ "native" ∷ "strictfp" ∷ "import"
    ∷ "package" ∷ "instanceof" ∷ "assert" ∷ "enum" ∷ "null" ∷ []
keyword_sets go =
    "if" ∷ "else" ∷ "for" ∷ "range" ∷ "switch" ∷ "case" ∷ "break" ∷ "continue" ∷ "return" ∷ "func"
    ∷ "var" ∷ "const" ∷ "type" ∷ "struct" ∷ "interface" ∷ "map" ∷ "chan" ∷ "go" ∷ "defer" ∷ "select"
    ∷ "package" ∷ "import" ∷ "nil" ∷ "true" ∷ "false" ∷ "iota" ∷ "make" ∷ "new" ∷ "append" ∷ "len"
    ∷ "cap" ∷ "close" ∷ "delete" ∷ "copy" ∷ "panic" ∷ "recover" ∷ []
keyword_sets rust =
    "if" ∷ "else" ∷ "for" ∷ "while" ∷ "loop" ∷ "match" ∷ "break" ∷ "continue" ∷ "return" ∷ "fn"
    ∷ "let" ∷ "mut" ∷ "const" ∷ "static" ∷ "struct" ∷ "enum" ∷ "impl" ∷ "trait" ∷ "pub" ∷ "use"
    ∷ "mod" ∷ "crate" ∷ "self" ∷ "super" ∷ "where" ∷ "type" ∷ "as" ∷ "in" ∷ "ref" ∷ "move" ∷ "async"
    ∷ "await" ∷ "true" ∷ "false" ∷ "Some" ∷ "None" ∷ "Ok" ∷ "Err" ∷ "Box" ∷ "Vec" ∷ "String" ∷ "str"
    ∷ "i32" ∷ "i64" ∷ "u32" ∷ "u64" ∷ "f32" ∷ "f64" ∷ "bool" ∷ "char" ∷ "usize" ∷ "isize" ∷ []
