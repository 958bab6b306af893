-- ===== src/SymbolGraph/Tests.antt =====
-- A symbol that one other calls.
use llamacodelab.Prelude.{none, [], ◌∷◌, codes, refl}
use llamacodelab.Domain.Millionths.{millionths, millionths-Compares, millionths-Positives}
use llamacodelab.SymbolGraph.{SymbolRepository, function, retrieve_symbols}
use llamacodelab.SymbolGraph.Awards.{IsRetrieval, retrieve_symbols-IsRetrieval}

abbrev symbols : SymbolRepository
symbols = record {
  find_exact = λ name.
      record {
        id = 7;
        kind = function;
        qualified_name = name;
        signature = [];
        declaration = record { path = codes "a.cpp"; start_line = 1; end_line = 2 };
        definition = none;
      }
      ∷ [];
  outgoing = λ id relation. [];
  incoming = λ id relation. record { from = 8; to = id; relation = relation } ∷ [];
}

retrieve_symbols-IsRetrieval_example :
    IsRetrieval millionths symbols
      (codes "who calls a::f?")
      5
      (retrieve_symbols millionths symbols (codes "who calls a::f?") 5)
retrieve_symbols-IsRetrieval_example =
    retrieve_symbols-IsRetrieval millionths symbols millionths-Positives refl refl
      millionths-Compares (codes "who calls a::f?") 5
