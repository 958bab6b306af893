-- ===== src/Lib.antt =====
-- LlamaCodeLab, a local assistant for C++ repositories: the code of a repository is cut into chunks,
-- embedded and indexed; a question is answered by a local model from the chunks that are retrieved.
--
-- Parts, and the files that model them:
--   Domain         include/llamacodelab/domain: hits, chunks, source ranges. Floats are a record of
--                  operations with named laws of IEEE 754; Domain.Millionths is an instance of them.
--   Chat           domain/chat.hpp and application/chat_session.cpp: the states of a generation.
--   Prompt         application/prompt_builder.cpp: the chat prompt within a token budget.
--   Rag            application/context_budget.cpp: the prompt with the retrieved sources; Rag.Ask is
--                  application/ask_service.cpp, which retrieves, builds this prompt, generates and cites.
--   Utf8           adapters/llama/llama_generator.cpp, emit_complete_utf8: the text for the client.
--   GenerationQueue  application/generation_queue.cpp: the bounded queue and its worker, as a step
--                  relation whose steps are what the mutex covers, and the stop token's.
--   BruteForce     adapters/vector/brute_force_index.cpp, over Similarity (domain/similarity.cpp) and
--                  Ranking (the order of hits, with std::sort and resize).
--   Fusion         application/reciprocal_rank_fusion.cpp, over Ranking.
--   Hybrid         application/hybrid_retriever.cpp: the retrievers, over Fusion.
--   Config         support/config.cpp: the checks of a configuration; Config.Load reads it,
--                  with the library of JSON values as a parameter.
--   Memory         adapters/memory/in_memory_chunk_repository.cpp: the repository of chunks in memory.
--   VectorFile     adapters/vector/vector_file.cpp: the format of the file and its atomic replacement.
--   Chunker        adapters/filesystem/text_chunker.cpp and support/hash.cpp: text cut into chunks of lines.
--   Scanner        adapters/filesystem/file_scanner.cpp: Glob is glob_matches, Ignore the rules of .gitignore;
--                  the directory iterator and std::filesystem are a tree of entries with their answers.
--   Llama          adapters/llama: Template is llama_chat_template.cpp, Tokens and Generate are
--                  llama_generator.cpp, with llama.cpp as a parameter.
--   Reranker       adapters/llama/llama_reranker.cpp, over Ranking; the generator is a parameter.
--   SymbolGraph    application/symbol_graph_retriever.cpp, over Ranking and the scores of Fusion;
--                  Names says which parts of a question are names.
--   Sqlite         adapters/sqlite/sqlite_chunk_repository.cpp: Schema is what the SQL statements do to the
--                  tables, triggers and constraints included; the methods are actions on a database with
--                  its transaction. SQLite's new row ids are a parameter, and how it answers each
--                  statement: it may refuse it, and may then roll the open transaction back.
--   FullText       adapters/sqlite/fts_search.cpp: the expression for the full-text index.
--   Prelude        shared types and lemmas: Result (exceptions as values, by class), Loop (while loops
--                  on fuel), Assoc (unordered_map), Sort, lists and texts as lists of bytes.
--
-- A method that changes an object is a function from its record to the next. Interfaces (IChatFormatter,
-- ITokenCounter, IRetriever, IChunkRepository, IReranker, ITextGenerator), the file system and llama.cpp
-- are parameters. std::size_t and other unsigned types are natural numbers, reduced by % 2 ^ 64 where the
-- code adds or subtracts what may wrap.
--
-- Fuel: Prompt.build has a round for each message and one more, as each round drops a message;
-- emit_complete_utf8 has a round for each byte, as each consumes one; Chunker.chunk_text has a round for each
-- line and one more, as the start grows; the first loop of LlamaGenerator::generate has one for each token
-- of the prompt, enough where the batch size is positive, as validate_config asks. They are shown to be enough.
--
-- Not modelled: the measured times, log lines and the texts of exceptions; the clang adapter, the SQLite
-- repository of symbols, the HNSW adapter, the embedder, the HTTP server, the index service, the
-- evaluation and the command line.
mod Prelude
pub mod Chat
pub mod Prompt
pub mod Domain
pub mod Ranking
pub mod Fusion
pub mod Similarity
pub mod BruteForce
pub mod Utf8
pub mod Rag
pub mod VectorFile
pub mod GenerationQueue
pub mod Chunker
pub mod Config
pub mod Hybrid
pub mod Memory
pub mod Scanner
pub mod Llama
pub mod Sqlite
pub mod Reranker
pub mod SymbolGraph
pub mod FullText
