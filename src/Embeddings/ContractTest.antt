-- ===== src/Embeddings/ContractTest.antt =====
-- scripts/embeddings/generate.mjs, `test`: the text of the generated contract test.
use cliptown_lib_core.Prelude.{◌∷◌, List, ◌++◌, []}
use cliptown_lib_core.Text.{Text, lit}
use cliptown_lib_core.Embeddings.{Setup, p, prefix_dims, w, width}
use cliptown_lib_core.Embeddings.Spelling.{difference, unlines}

unfoldable pub test_opening : Setup → List Text
test_opening s =
    lit "// GENERATED FILE - do not edit by hand."
    ∷ lit "// Regenerate: node scripts/embeddings/generate.mjs"
    ∷ lit "//"
    ∷ lit "// These assertions are the ones that would cost real money to get wrong: a"
    ∷ lit "// dimension that does not fit, a pad that is not norm-preserving, an index that"
    ∷ lit "// pgvector will refuse to create, or a model comparison that crosses spaces."
    ∷ []
    ∷ lit "import { createHash } from 'node:crypto';"
    ∷ lit "import { readFileSync } from 'node:fs';"
    ∷ lit "import { dirname, resolve } from 'node:path';"
    ∷ lit "import { fileURLToPath } from 'node:url';"
    ∷ lit "import test from 'node:test';"
    ∷ lit "import assert from 'node:assert/strict';"
    ∷ []
    ∷ lit "const root = resolve(dirname(fileURLToPath(import.meta.url)), '..');"
    ∷ lit "const read = (p) => readFileSync(resolve(root, p), 'utf8');"
    ∷ []
    ∷ lit "const contractRaw = read('db/embedding-contract.json');"
    ∷ lit "const contract = JSON.parse(contractRaw);"
    ∷ (lit "const pg = read('db/schema/postgres/0100_" ++ p s ++ lit "_embeddings.sql');")
    ∷ (lit "const crdb = read('db/schema/cockroach/0100_" ++ p s ++ lit "_embeddings.sql');")
    ∷ []
    ∷ (lit "const W = " ++ w s ++ lit ";")
    ∷ (lit "const PREFIX = " ++ prefix_dims ++ lit ";")
    ∷ []
    ∷ []

unfoldable pub test_contract : Setup → List Text
test_contract s =
    lit "test('the vendored contract has not drifted from the fleet copy', () => {"
    ∷ lit "  assert.equal("
    ∷ lit "    createHash('sha256').update(contractRaw).digest('hex'),"
    ∷ (lit "    '" ++ s.contract_sha ++ lit "',")
    ∷ lit
        "    'db/embedding-contract.json differs from the fleet contract this repo was generated against. ' +"
    ∷ lit "      'Re-vendor it and rerun the generator in every org rather than editing one copy.',"
    ∷ lit "  );"
    ∷ lit "});"
    ∷ []
    ∷ lit "test('the contract states the pgvector floor these types actually need', () => {"
    ∷ lit "  // halfvec / binary_quantize / subvector / l2_norm / bit_hamming_ops are all"
    ∷ lit "  // 0.7.0 features. A deployment on 0.6.x fails at CREATE TABLE, not at query"
    ∷ lit "  // time, so the floor belongs in the contract and in the DDL header."
    ∷ lit "  assert.equal(contract.requires.pgvector, '>=0.7.0');"
    ∷ lit "  assert.match(pg, /Requires pgvector >=0.7.0/);"
    ∷ lit "});"
    ∷ []
    ∷ lit "test('every registered model fits the canonical width', () => {"
    ∷ lit "  for (const m of contract.models) {"
    ∷ lit
        "    assert.ok(m.nativeDims >= 1 && m.nativeDims <= W, `${m.key} is ${m.nativeDims}, outside 1..${W}`);"
    ∷ lit "  }"
    ∷ lit "});"
    ∷ []
    ∷ lit "test('the widest models we care about are covered with headroom', () => {"
    ∷ lit "  const wide = contract.models.filter((m) => m.nativeDims === 4096).map((m) => m.key);"
    ∷ lit
        "  for (const key of ['qwen:Qwen3-Embedding-8B:1', 'nvidia:NV-Embed-v2:1', 'baai:bge-en-icl:1']) {"
    ∷ lit "    assert.ok(wide.includes(key), `${key} should be registered at 4096`);"
    ∷ lit "  }"
    ∷ lit "  assert.ok(W > 4096, 'the canonical width must leave headroom past 4096');"
    ∷ lit "});"
    ∷ []
    ∷ lit "test('the popular 1536-dimension models are stored with a zero tail', () => {"
    ∷ lit
        "  const small = contract.models.find((m) => m.key === 'openai:text-embedding-3-small:1');"
    ∷ lit "  assert.equal(small.nativeDims, 1536);"
    ∷ (lit "  assert.equal(W - small.nativeDims, "
        ++ difference (width s) 1536
        ++ lit ", 'the OpenAI tail is the zero-padded remainder');")
    ∷ lit "});"
    ∷ []
    ∷ []

unfoldable pub test_surfaces : List Text
test_surfaces =
    lit "test('no ANN index is declared on the full-width vector column', () => {"
    ∷ lit "  // pgvector caps HNSW/IVFFlat at 2000 dims for vector and 4000 for halfvec, so"
    ∷ lit "  // an index on a vector(4100) column cannot be created at all. This test is the"
    ∷ lit "  // guard against someone \"fixing\" the schema by adding one."
    ∷ lit "  assert.doesNotMatch("
    ∷ lit "    pg,"
    ∷ lit "    /using\\s+hnsw\\s*\\(\\s*embedding\\s+/i,"
    ∷ lit
        "    'an HNSW index directly on the embedding column would fail to create at ' + W + ' dimensions',"
    ∷ lit "  );"
    ∷ lit "  assert.doesNotMatch(pg, /using\\s+ivfflat\\s*\\(\\s*embedding\\s+/i);"
    ∷ lit "});"
    ∷ []
    ∷ lit "test('both indexable candidate surfaces exist and are within their limits', () => {"
    ∷ lit "  assert.match(pg, /embedding_bits\\s+bit\\(4100\\)/);"
    ∷ lit "  assert.match(pg, /using hnsw \\(embedding_bits extensions\\.bit_hamming_ops\\)/);"
    ∷ lit "  assert.ok(W <= 64000, 'bit indexes allow up to 64000 dimensions');"
    ∷ []
    ∷ lit "  assert.match(pg, /embedding_prefix\\s+extensions\\.halfvec\\(1024\\)/);"
    ∷ lit "  assert.match(pg, /using hnsw \\(embedding_prefix extensions\\.halfvec_cosine_ops\\)/);"
    ∷ lit "  assert.ok(PREFIX <= 4000, 'halfvec indexes allow up to 4000 dimensions');"
    ∷ lit "});"
    ∷ []
    ∷ lit
        "test('the prefix index is partial, because a prefix is meaningless for a non-MRL model', () => {"
    ∷ lit
        "  assert.match(pg, /using hnsw \\(embedding_prefix extensions\\.halfvec_cosine_ops\\)\\s*\\n\\s*where mrl_prefix_valid/);"
    ∷ lit "  const nonMrl = contract.models.filter((m) => !m.mrl);"
    ∷ lit "  assert.ok(nonMrl.length > 0, 'the registry should contain non-Matryoshka models');"
    ∷ lit "  for (const m of nonMrl) {"
    ∷ lit "    assert.equal(m.mrl, false);"
    ∷ lit "  }"
    ∷ lit "});"
    ∷ []
    ∷ []

unfoldable pub test_checks : Setup → List Text
test_checks s =
    lit "test('the zero-pad and unit-norm invariants are enforced by CHECK constraints', () => {"
    ∷ (lit "  assert.match(pg, /constraint " ++ p s ++ lit "_emb_zero_padded/);")
    ∷ (lit "  assert.match(pg, /constraint " ++ p s ++ lit "_emb_unit_norm/);")
    ∷ lit "  assert.match(pg, /emb_is_zero_padded/);"
    ∷ lit "  assert.match(pg, /emb_is_unit/);"
    ∷ lit "});"
    ∷ []
    ∷ lit "test('full-text search sits alongside the vector, weighted and GIN-indexed', () => {"
    ∷ lit "  assert.match(pg, /search_document\\s+tsvector generated always as/);"
    ∷ lit "  assert.match(pg, /setweight\\(to_tsvector\\('simple', coalesce\\(title_text/);"
    ∷ lit "  assert.match(pg, /using gin \\(search_document\\)/);"
    ∷ lit "});"
    ∷ []
    ∷ lit "test('the embedding column is stored out of line without compression', () => {"
    ∷ lit "  assert.match(pg, /alter column embedding set storage external/);"
    ∷ lit "});"
    ∷ []
    ∷ []

unfoldable pub test_queries : List Text
test_queries =
    lit "// The CockroachDB file explains in prose why pgvector's types are absent, so"
    ∷ lit "// the assertions below run against the statements only, with -- comments and"
    ∷ lit "// blank lines stripped. Asserting against the raw text would pass or fail on"
    ∷ lit "// the wording of a comment rather than on the DDL."
    ∷ lit "const statementsOnly = (sql) =>"
    ∷ lit "  sql"
    ∷ lit "    .split('\\n')"
    ∷ lit "    .map((l) => l.replace(/--.*$/, ''))"
    ∷ lit "    .join('\\n');"
    ∷ []
    ∷ lit "test('CockroachDB relies on L2, which unit norm makes equivalent to cosine', () => {"
    ∷ lit "  const ddl = statementsOnly(crdb);"
    ∷ lit "  assert.match(ddl, /vector\\(4100\\)/);"
    ∷ lit "  assert.doesNotMatch(ddl, /halfvec/, 'CockroachDB has no halfvec type');"
    ∷ lit "  assert.doesNotMatch(ddl, /binary_quantize/, 'CockroachDB has no binary_quantize()');"
    ∷ lit "  assert.match(crdb, /vector_l2_ops/, 'the C-SPANN index, commented out, must be L2');"
    ∷ lit "});"
    ∷ []
    ∷ lit "test('every query scopes by model before touching a distance operator', () => {"
    ∷ lit
        "  for (const f of ['hybrid_search', 'dedupe_candidates', 'correlate_entities', 'alert_match']) {"
    ∷ lit "    const q = read(`db/queries/${f}.sql`);"
    ∷ lit "    assert.match(q, /model_key/, `${f}.sql must scope by model_key`);"
    ∷ lit "  }"
    ∷ lit "});"
    ∷ []

-- `test`.
unfoldable pub contract_test : Setup → Text
unfolding unlines
contract_test s =
    unlines (test_opening s ++ test_contract s ++ test_surfaces ++ test_checks s ++ test_queries)
